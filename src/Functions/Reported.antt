-- ===== src/Functions/Reported.antt =====
-- What reconcile of pkg/reconciler/functions/functions.go reports when it fails: the error, and the
-- status that says so.
use Prim.Native.String.{◌++◌}
use knative_functions_contro.Common.{String, ◌≡◌, false, none, some, [], ◌∷◌, Option, Error, Dict}
use knative_functions_contro.Kube.Objects.{Condition, Route, Service}
use knative_functions_contro.Kube.Api.{Env, get_service, update_service}
use knative_functions_contro.Kube.Conditions.{condition_ready}
use knative_functions_contro.Kube.Failures.{IsRefusal}
use knative_functions_contro.Kube.Libraries.{Libraries}
use knative_functions_contro.Duck.Types.{Function}
use knative_functions_contro.Duck.Lifecycle.{
  initialize_conditions, mark_config_map_not_synced, mark_config_map_synced, mark_route_not_ready,
  mark_route_ready, mark_service_not_synced,
}
use knative_functions_contro.Functions.Causes.{IsRouteless}
use knative_functions_contro.Functions.ConfigCauses.{IsConfigless}
use knative_functions_contro.Functions.Seen.{IsServiceSeen, IsRouteSeen}
use knative_functions_contro.Functions.Status.{is_ready_condition}
use knative_functions_contro.Functions.Steps.{error, functions_namespace, with_status, with_version}

-- The reason and the message of a condition that is not True.
abbrev pub why_unready : Option Condition → String × String
why_unready none = ("Unknown", "")
why_unready (some c) = (c.reason, c.message)

module _ (libs : Libraries) where
  -- The Function as each step finds it.
  abbrev pub initialized : Function → Function
  initialized = with_status (initialize_conditions libs.conditions)

  abbrev pub routed : Function → Function
  routed before = with_status (mark_route_ready libs.conditions) (initialized before)

  abbrev pub recorded : Function → Function
  recorded before = with_status (mark_config_map_synced libs.conditions) (routed before)

  abbrev pub condition_of : Service → Option Condition
  condition_of svc = libs.status_condition svc.conditions condition_ready

  abbrev pub route_condition : Route → Option Condition
  route_condition route = libs.status_condition route.status.conditions condition_ready

module _ {W : Type 0} (env : Env W) (libs : Libraries) (function_name : String) where
  -- The error, its cause and the Function that is left, by the step that failed.
  pub data Report (before : Function) (x : Error) : Function → Type 0 where
    no_service :
        IsRefusal env (get_service functions_namespace function_name) x
        → Report before x (
            with_status
              (mark_service_not_synced libs.conditions "CheckExistFailed" x.message [])
              (initialized libs before))
    unready_service :
        (svc : Service)
        → IsServiceSeen env libs function_name svc
        → is_ready_condition (condition_of libs svc) ≡ false
        → x ≡ error ("service " ++ svc.meta.name ++ " is not ready")
        → Report before x (
            with_status
              (mark_service_not_synced libs.conditions
                (why_unready (condition_of libs svc)).0
                (why_unready (condition_of libs svc)).1
                [])
              (initialized libs before))
    no_route :
        IsRouteless env libs function_name before x
        → Report before x (
            with_status
              (mark_route_not_ready libs.conditions "ReconcileFailed" "%v" (x.message ∷ []))
              (initialized libs before))
    unready_route :
        (route : Route)
        → IsRouteSeen env libs function_name before route
        → is_ready_condition (route_condition libs route) ≡ false
        → x ≡ error "route is not ready"
        → Report before x (
            with_status
              (mark_route_not_ready libs.conditions
                (why_unready (route_condition libs route)).0
                (why_unready (route_condition libs route)).1
                [])
              (initialized libs before))
    no_config :
        IsConfigless env libs function_name x
        → Report before x (
            with_status
              (mark_config_map_not_synced libs.conditions "UpdateFailed" x.message [])
              (routed libs before))
    unsynced :
        (svc : Service) (version : String) (m : Dict String)
        → IsServiceSeen env libs function_name svc
        → svc.spec.annotations ≡ some m
        → IsRefusal env (update_service svc.meta.namespace (with_version svc version m)) x
        → Report before x (
            with_status
              (mark_service_not_synced libs.conditions "UpdateFailed" x.message [])
              (recorded libs before))
