-- ===== src/Duck/Lifecycle.antt =====
-- pkg/apis/duck/v1alpha1/function_lifecycle.go. Each method of *FunctionStatus gives the new status.
use knative_functions_contro.Common.{String, Bool, Option, none, some, List, [], ◌∷◌}
use knative_functions_contro.Kube.Objects.{Url, Condition, GroupVersionKind}
use knative_functions_contro.Kube.Conditions.{ConditionSet, ConditionLib, condition_ready}
use knative_functions_contro.Kube.Libraries.{Libraries}
use knative_functions_contro.Duck.Types.{Function, FunctionStatus, scheme_group_version}

abbrev pub function_condition_ready : String
function_condition_ready = condition_ready

abbrev pub function_condition_config_map_synced : String
function_condition_config_map_synced = "ConfigMapSynced"

abbrev pub function_condition_addressable : String
function_condition_addressable = "Addressable"

abbrev pub function_condition_route_ready : String
function_condition_route_ready = "RouteReady"

abbrev pub function_condition_service_synced : String
function_condition_service_synced = "ServiceReady"

-- (*Function).GetGroupVersionKind
unfoldable pub get_group_version_kind : Libraries → Function → GroupVersionKind
get_group_version_kind libs fn = libs.with_kind scheme_group_version fn.type_meta.kind

module _ (lib : ConditionLib) where
  -- the package variable pFunctionCondSet
  unfoldable pub function_cond_set : ConditionSet
  function_cond_set = lib.new_living_condition_set (
      function_condition_ready ∷ function_condition_config_map_synced
      ∷ function_condition_addressable ∷ [])

  unfoldable pub get_condition : FunctionStatus → String → Option Condition
  get_condition ps t = lib.get_condition function_cond_set ps.conditions t

  unfoldable pub is_ready : FunctionStatus → Bool
  is_ready ps = lib.is_happy function_cond_set ps.conditions

  unfoldable pub initialize_conditions : FunctionStatus → FunctionStatus
  initialize_conditions ps = record ps {
    conditions = lib.initialize_conditions function_cond_set ps.conditions;
  }

  -- pFunctionCondSet.Manage(ps).MarkTrue(t), and MarkFalse
  unfoldable pub mark_true : String → FunctionStatus → FunctionStatus
  mark_true t ps = record ps { conditions = lib.mark_true function_cond_set t ps.conditions }

  unfoldable pub mark_false :
      String → String → String → List String → FunctionStatus → FunctionStatus
  mark_false t reason format args ps = record ps {
    conditions = lib.mark_false function_cond_set t reason format args ps.conditions;
  }

  abbrev pub mark_config_map_synced : FunctionStatus → FunctionStatus
  mark_config_map_synced = mark_true function_condition_config_map_synced

  abbrev pub mark_config_map_not_synced :
      String → String → List String → FunctionStatus → FunctionStatus
  mark_config_map_not_synced = mark_false function_condition_config_map_synced

  abbrev pub mark_service_synced : FunctionStatus → FunctionStatus
  mark_service_synced = mark_true function_condition_service_synced

  abbrev pub mark_service_not_synced :
      String → String → List String → FunctionStatus → FunctionStatus
  mark_service_not_synced = mark_false function_condition_service_synced

  abbrev pub mark_route_ready : FunctionStatus → FunctionStatus
  mark_route_ready = mark_true function_condition_route_ready

  abbrev pub mark_route_not_ready : String → String → List String → FunctionStatus → FunctionStatus
  mark_route_not_ready = mark_false function_condition_route_ready

  abbrev pub mark_addressable_not_ready :
      String → String → List String → FunctionStatus → FunctionStatus
  mark_addressable_not_ready = mark_false function_condition_addressable

  unfoldable pub set_address : Option Url → FunctionStatus → FunctionStatus
  unfolding mark_true mark_false
  set_address none ps =
      mark_false function_condition_addressable "emptyURL" "URL is the empty string" []
        (record ps { address = some (record { url = none }) })
  set_address (some url) ps =
      mark_true function_condition_addressable
        (record ps { address = some (record { url = some url }) })
