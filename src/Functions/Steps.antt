-- ===== src/Functions/Steps.antt =====
-- The steps of pkg/reconciler/functions/functions.go that look at the service and at the route.
use Prim.Native.String.{◌++◌}
use knative_functions_contro.Common.{
  String, Bool, true, false, Option, none, some, [], ◌==◌, if◌then◌else◌, Error, Result, ok, err,
  lookup_nil, insert, quote, Dict,
}
use knative_functions_contro.Kube.Objects.{Condition, is_true, ConfigMap, Route, Service}
use knative_functions_contro.Kube.Api.{get_route, create_route, get_service, update_service, Env}
use knative_functions_contro.Kube.Action.{
  Action, pure, fail, panic, lift, attempt, get_object, modify_object, call, ◌>>=◌, ◌>>◌,
}
use knative_functions_contro.Kube.Conditions.{condition_ready}
use knative_functions_contro.Kube.Libraries.{Libraries}
use knative_functions_contro.Duck.Types.{Function, FunctionStatus, config_map_annotation}
use knative_functions_contro.Duck.Lifecycle.{
  mark_service_not_synced, mark_route_not_ready, mark_route_ready,
}
use knative_functions_contro.Resources.Route.{make_route_name, make_route}

-- fmt.Errorf
abbrev pub error : String → Error
error text = record { message = text; not_found = false }

-- A change of fn.Status.
abbrev pub with_status : (FunctionStatus → FunctionStatus) → Function → Function
with_status f fn = record fn { status = f fn.status }

abbrev pub functions_namespace : String
functions_namespace = "knative-functions"

abbrev pub is_condition_true : Condition → Bool
is_condition_true c = elim c.status [ is_true ↦ true | _ ↦ false ]

abbrev pub or_empty : Option String → String
or_empty none = ""
or_empty (some s) = s

-- The copy of the service with the version among the annotations of its template.
unfoldable pub with_version : Service → String → Dict String → Service
with_version service version m = record service {
  spec = record (service.spec) { annotations = some (insert config_map_annotation version m) };
}

module _ {W : Type 0} (env : Env W) (libs : Libraries) (function_name : String) where
  unfoldable pub check_service : Action W Function Service
  check_service = call env (get_service functions_namespace function_name)

  -- service.Status.GetCondition(Ready), and what follows by its value
  unfoldable pub judge_service : Service → Option Condition → Action W Function (Unit {0})
  judge_service service none =
      modify_object (with_status (mark_service_not_synced libs.conditions "Unknown" "" []))
      >> fail (error ("service " ++ service.meta.name ++ " is not ready"))
  judge_service service (some c) =
      if is_condition_true c
      then pure tt
      else modify_object
          (with_status (mark_service_not_synced libs.conditions c.reason c.message []))
        >> fail (error ("service " ++ service.meta.name ++ " is not ready"))

  unfoldable pub propagate_service_status_if_error : Service → Action W Function (Unit {0})
  unfolding judge_service
  propagate_service_status_if_error service =
      judge_service service (libs.status_condition service.conditions condition_ready)

  -- What reconcileRoute does with the lister's answer.
  unfoldable pub found_route : Function → Result Route → Action W Function Route
  found_route fn (ok route) =
      if libs.is_controlled_by route.meta fn.meta
      then pure route
      else fail (
          error (
            "Function: "
            ++ fn.meta.namespace
            ++ "/"
            ++ fn.meta.name
            ++ " does not own Route: "
            ++ quote route.meta.name))
  found_route fn (err e) =
      if e.not_found
      then (do
        route ← lift (make_route libs function_name fn [])
        call env (create_route functions_namespace route))
      else fail e

  unfoldable pub reconcile_route : Action W Function Route
  unfolding found_route
  reconcile_route = do
    fn ← get_object
    found ← attempt (
        call env (
          get_route functions_namespace
            (make_route_name function_name fn.meta.name fn.meta.namespace)))
    found_route fn found

  -- route.Status.GetCondition(Ready), and what follows by its value
  unfoldable pub judge_route : Option Condition → Action W Function (Unit {0})
  judge_route none =
      modify_object (with_status (mark_route_not_ready libs.conditions "Unknown" "" []))
      >> fail (error "route is not ready")
  judge_route (some c) =
      if is_condition_true c
      then modify_object (with_status (mark_route_ready libs.conditions))
      else modify_object (with_status (mark_route_not_ready libs.conditions c.reason c.message []))
        >> fail (error "route is not ready")

  unfoldable pub propagate_route_status : Route → Action W Function (Unit {0})
  unfolding judge_route
  propagate_route_status route =
      judge_route (libs.status_condition route.status.conditions condition_ready)

  -- copy.Spec.Template.Annotations[...] = version, which panics if the annotations are a nil map,
  -- and the update
  unfoldable pub save_version : Service → String → Option (Dict String) → Action W Function Service
  unfolding with_version
  save_version service version none = panic
  save_version service version (some m) =
      call env (update_service service.meta.namespace (with_version service version m))

  unfoldable pub reconcile_service : Service → ConfigMap → Action W Function Service
  unfolding save_version
  reconcile_service service cm =
      if or_empty (lookup_nil config_map_annotation service.spec.annotations)
        == cm.meta.resource_version
      then pure service
      else save_version service cm.meta.resource_version service.spec.annotations
