-- ===== src/Duck/Readiness.antt =====
-- The readiness of a Function over every sequence of the methods of function_lifecycle.go.
use knative_functions_contro.Common.{
  String, ◌≡◌, refl, inl, inr, true, false, Option, none, some, List, [], ◌∷◌, ◌==◌, arith,
  Option-cases, eq_iff, ◌∙◌, ap, sym,
}
use knative_functions_contro.Kube.Objects.{Url, ConditionStatus, is_true}
use knative_functions_contro.Kube.Conditions.{ConditionLib, ConditionLaws, is_status_true, contains}
use knative_functions_contro.Duck.Types.{FunctionStatus}
use knative_functions_contro.Duck.Lifecycle.{
  function_condition_ready, function_condition_config_map_synced, function_condition_addressable,
  function_cond_set, get_condition, is_ready, initialize_conditions, mark_true, mark_false,
  mark_config_map_synced, mark_config_map_not_synced, mark_service_synced, mark_service_not_synced,
  mark_route_ready, mark_route_not_ready, mark_addressable_not_ready, set_address,
}
use knative_functions_contro.Duck.Conditions.{
  reported, reported-mark_true, reported-mark_false, is_ready-eq, contains-dependents,
  others_true_at, reported-initialize_set, reported-initialize_ready,
}

-- The methods that change a status.
pub data Method : Type 0 where
  initializes config_map_synced service_synced route_ready : Method
  config_map_not_synced service_not_synced route_not_ready addressable_not_ready :
      String → String → List String → Method
  address_set : Option Url → Method

unfoldable pub apply : ConditionLib → Method → FunctionStatus → FunctionStatus
apply lib initializes = initialize_conditions lib
apply lib config_map_synced = mark_config_map_synced lib
apply lib service_synced = mark_service_synced lib
apply lib route_ready = mark_route_ready lib
apply lib (config_map_not_synced r f args) = mark_config_map_not_synced lib r f args
apply lib (service_not_synced r f args) = mark_service_not_synced lib r f args
apply lib (route_not_ready r f args) = mark_route_not_ready lib r f args
apply lib (addressable_not_ready r f args) = mark_addressable_not_ready lib r f args
apply lib (address_set url) = set_address lib url

unfoldable pub apply_all : ConditionLib → List Method → FunctionStatus → FunctionStatus
apply_all lib [] ps = ps
apply_all lib (m ∷ ms) ps = apply_all lib ms (apply lib m ps)

-- A ready Function has its config map synced and an address.
abbrev pub IsConsistent : ConditionLib → FunctionStatus → Type 0
IsConsistent lib ps =
    is_ready lib ps ≡ true
    → (reported lib ps function_condition_config_map_synced ≡ some is_true)
      × (reported lib ps function_condition_addressable ≡ some is_true)

is_status_true-eq : (o : Option ConditionStatus) → is_status_true o ≡ true → o ≡ some is_true
is_status_true-eq o h = ground arith

module _ (lib : ConditionLib) (laws : ConditionLaws lib) where
  -- A method that marks a type other than Ready true makes Ready true only with its dependents.
  mark_true-dependent :
      (t u : String) (ps : FunctionStatus)
      → (t == function_condition_ready) ≡ false
      → contains (function_cond_set lib).dependents u ≡ true
      → (is_ready lib ps ≡ true → reported lib ps u ≡ some is_true)
      → is_ready lib (mark_true lib t ps) ≡ true
      → reported lib (mark_true lib t ps) u ≡ some is_true
  mark_true-dependent t u ps ne c h ready = ground (
    arith,
    is_ready-eq lib laws ps,
    is_ready-eq lib laws (mark_true lib t ps),
    reported-mark_true lib laws t function_condition_ready ps,
    reported-mark_true lib laws t u ps,
    contains-dependents lib laws u,
    others_true_at (reported lib ps) t u (function_cond_set lib).dependents,
    eq_iff t u,
    eq_iff u t,
    is_status_true-eq (reported lib ps u),
  )

  mark_true-IsConsistent :
      (t : String) (ps : FunctionStatus)
      → (t == function_condition_ready) ≡ false
      → IsConsistent lib ps
      → IsConsistent lib (mark_true lib t ps)
  mark_true-IsConsistent t ps ne h ready = (
    mark_true-dependent t _ ps ne (contains-dependents lib laws _) (λ r. (h r).0) ready,
    mark_true-dependent t _ ps ne (contains-dependents lib laws _) (λ r. (h r).1) ready,
  )

  mark_false-IsConsistent :
      (t reason format : String) (args : List String) (ps : FunctionStatus)
      → (t == function_condition_ready) ≡ false
      → IsConsistent lib ps
      → IsConsistent lib (mark_false lib t reason format args ps)
  mark_false-IsConsistent t reason format args ps ne h ready = ground (
    arith,
    ready,
    is_ready-eq lib laws ps,
    is_ready-eq lib laws (mark_false lib t reason format args ps),
    reported-mark_false lib laws t function_condition_ready reason format args ps,
    reported-mark_false lib laws t function_condition_config_map_synced reason format args ps,
    reported-mark_false lib laws t function_condition_addressable reason format args ps,
    contains-dependents lib laws t,
    eq_iff t function_condition_ready,
    eq_iff function_condition_config_map_synced t,
    eq_iff function_condition_addressable t,
    eq_iff t function_condition_config_map_synced,
    eq_iff t function_condition_addressable,
  )

  initialize-IsConsistent :
      (ps : FunctionStatus) → IsConsistent lib ps → IsConsistent lib (initialize_conditions lib ps)
  initialize-IsConsistent ps h ready =
      elim (Option-cases (reported lib ps function_condition_ready)) [
        | inl unset ↦ cc (
          ready,
          is_ready-eq lib laws (initialize_conditions lib ps),
          ap is_status_true (reported-initialize_ready lib laws ps unset),
        )
        | inr (st, e) ↦
            let was : is_ready lib ps ≡ true =
              is_ready-eq lib laws ps
              ∙ ap is_status_true
                  (e ∙ sym (reported-initialize_set lib laws function_condition_ready ps st e))
              ∙ sym (is_ready-eq lib laws (initialize_conditions lib ps))
              ∙ ready in
            let (c, a) = h was in
            (
              reported-initialize_set lib laws _ ps is_true c,
              reported-initialize_set lib laws _ ps is_true a,
            )
      ]

  apply-IsConsistent :
      (m : Method) (ps : FunctionStatus) → IsConsistent lib ps → IsConsistent lib (apply lib m ps)
  unfolding apply set_address
  apply-IsConsistent initializes ps h = initialize-IsConsistent ps h
  apply-IsConsistent config_map_synced ps h = mark_true-IsConsistent _ ps refl h
  apply-IsConsistent service_synced ps h = mark_true-IsConsistent _ ps refl h
  apply-IsConsistent route_ready ps h = mark_true-IsConsistent _ ps refl h
  apply-IsConsistent (config_map_not_synced r f args) ps h =
      mark_false-IsConsistent _ r f args ps refl h
  apply-IsConsistent (service_not_synced r f args) ps h =
      mark_false-IsConsistent _ r f args ps refl h
  apply-IsConsistent (route_not_ready r f args) ps h = mark_false-IsConsistent _ r f args ps refl h
  apply-IsConsistent (addressable_not_ready r f args) ps h =
      mark_false-IsConsistent _ r f args ps refl h
  apply-IsConsistent (address_set none) ps h =
      mark_false-IsConsistent _ _ _ _ (record ps { address = some (record { url = none }) }) refl
        (unfold get_condition is_ready in h)
  apply-IsConsistent (address_set (some url)) ps h =
      mark_true-IsConsistent _ (record ps { address = some (record { url = some url }) }) refl
        (unfold get_condition is_ready in h)

  apply_all-IsConsistent :
      (ms : List Method) (ps : FunctionStatus)
      → IsConsistent lib ps
      → IsConsistent lib (apply_all lib ms ps)
  unfolding apply_all
  apply_all-IsConsistent [] ps h = h
  apply_all-IsConsistent (m ∷ ms) ps h =
      apply_all-IsConsistent ms (apply lib m ps) (apply-IsConsistent m ps h)

  -- Whatever methods are called, in any order and with any arguments, on a status that is not ready:
  -- if the Function is ready in the end, its ConfigMapSynced and Addressable conditions are True.
  pub ready-apply_all :
      (ms : List Method) (ps : FunctionStatus)
      → is_ready lib ps ≡ false
      → is_ready lib (apply_all lib ms ps) ≡ true
      → (reported lib (apply_all lib ms ps) function_condition_config_map_synced ≡ some is_true)
        × (reported lib (apply_all lib ms ps) function_condition_addressable ≡ some is_true)
  ready-apply_all ms ps start ready = apply_all-IsConsistent ms ps (λ r. cc (start, r)) ready
