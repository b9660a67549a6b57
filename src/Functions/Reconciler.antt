-- ===== src/Functions/Reconciler.antt =====
-- (*Reconciler).Reconcile, reconcile and updateStatus of pkg/reconciler/functions/functions.go
use Prim.Native.String.{◌++◌}
use knative_functions_contro.Common.{
  String, Bool, true, false, Option, none, some, [], ◌∷◌, if◌then◌else◌, Error, Result, ok, err,
  quote,
}
use knative_functions_contro.Kube.Objects.{Url, Route, Service, Unstructured}
use knative_functions_contro.Kube.Api.{get_function, update_function_status, warning_event, Env}
use knative_functions_contro.Kube.Action.{
  Action, pure, fail, lift, catch, attempt, get_object, modify_object, call, tell, ◌>>=◌, ◌>>◌,
}
use knative_functions_contro.Kube.Libraries.{Libraries}
use knative_functions_contro.Duck.Types.{Function, FunctionStatus}
use knative_functions_contro.Duck.Lifecycle.{
  initialize_conditions, mark_service_not_synced, mark_route_not_ready, mark_config_map_not_synced,
  mark_config_map_synced, mark_service_synced, set_address,
}
use knative_functions_contro.Functions.Steps.{
  with_status, check_service, propagate_service_status_if_error, reconcile_route,
  propagate_route_status, reconcile_service,
}
use knative_functions_contro.Functions.Config.{reconcile_config}

-- http://name.namespace.svc.domain, of the route
unfoldable pub route_url : Libraries → Route → Url
route_url libs route = record {
  scheme = "http";
  host = route.meta.name ++ "." ++ route.meta.namespace ++ ".svc." ++ libs.cluster_domain;
}

-- The last assignments of reconcile.
unfoldable pub publish : Libraries → Route → Function → Function
unfolding route_url set_address
publish libs route fn =
    let addressed = set_address libs.conditions (some (route_url libs route)) fn.status in
    record fn {
      status = record addressed {
        url = route.status.url;
        observed_generation = fn.meta.generation;
      };
    }

-- Marks the status by the error, and returns the error.
abbrev pub mark_and_fail :
    {W A : Type 0} → (Error → FunctionStatus → FunctionStatus) → Error → Action W Function A
mark_and_fail mark e = modify_object (with_status (mark e)) >> fail e

module _ {W : Type 0} (env : Env W) (libs : Libraries) (function_name : String) where
  -- The part of reconcile from the ready route on.
  unfoldable pub sync_config : Service → Route → Action W Function (Unit {0})
  unfolding publish
  sync_config svc route = do
    cm ← catch (reconcile_config env libs function_name (some route)) (
        mark_and_fail (λ e. mark_config_map_not_synced libs.conditions "UpdateFailed" e.message []))
    modify_object (with_status (mark_config_map_synced libs.conditions))
    updated ←
        catch (reconcile_service env libs function_name svc cm)
          (mark_and_fail (λ e. mark_service_not_synced libs.conditions "UpdateFailed" e.message []))
    modify_object (with_status (mark_service_synced libs.conditions))
    modify_object (publish libs route)

  -- The part of reconcile from the ready service on.
  unfoldable pub sync_route : Service → Action W Function (Unit {0})
  unfolding sync_config
  sync_route svc = do
    route ← catch (reconcile_route env libs function_name) (
        mark_and_fail
          (λ e. mark_route_not_ready libs.conditions "ReconcileFailed" "%v" (e.message ∷ [])))
    propagate_route_status env libs function_name route
    sync_config svc route

  -- The part of reconcile from the service on.
  unfoldable pub sync_service : Action W Function (Unit {0})
  unfolding sync_route
  sync_service = do
    svc ← catch (check_service env libs function_name) (
        mark_and_fail
          (λ e. mark_service_not_synced libs.conditions "CheckExistFailed" e.message []))
    propagate_service_status_if_error env libs function_name svc
    sync_route svc

  -- Nothing is done to an object that is being deleted.
  unfoldable pub unless_deleted : Option String → Action W Function (Unit {0})
  unfolding sync_service
  unless_deleted (some _) = pure tt
  unless_deleted none =
      modify_object (with_status (initialize_conditions libs.conditions)) >> sync_service

  -- (*Reconciler).reconcile
  unfoldable pub reconcile_function : Action W Function (Unit {0})
  unfolding unless_deleted
  reconcile_function = do fn ← get_object; unless_deleted fn.meta.deletion_timestamp

  unfoldable pub update_status : Function → Action W Function Unstructured
  update_status desired = do
    raw ← lift (libs.marshal_function desired)
    call env (update_function_status desired.meta.namespace (libs.unmarshal_unstructured raw))

  -- A failure to write the status is recorded as an event.
  unfoldable pub report_failure : {A : Type 0} → Function → Error → Action W Function A
  report_failure resource e =
      tell env (
        warning_event resource.meta.name "UpdateFailed"
          ("Failed to update status for " ++ quote resource.meta.name ++ ": " ++ e.message))
      >> fail e

  -- The write of the status, by whether it is semantically the one that was read.
  unfoldable pub write_unless : Bool → Function → Action W Function (Unit {0})
  unfolding update_status report_failure
  write_unless true resource = pure tt
  write_unless false resource = do
    written ← catch (update_status resource) (report_failure resource)
    pure tt

  unfoldable pub write_back : FunctionStatus → Action W Function (Unit {0})
  unfolding write_unless
  write_back original = do
    resource ← get_object
    write_unless (libs.status_equal original resource.status) resource

  -- The end of Reconcile: the error of reconcile is recorded and returned.
  unfoldable pub finish : Result (Unit {0}) → Action W Function (Unit {0})
  finish (ok _) = pure tt
  finish (err e) = do
    resource ← get_object
    tell env (warning_event resource.meta.name "InternalError" e.message)
    fail e

  -- Reconcile once the object has been read: the object behind the pointer is the copy of `original`.
  unfoldable pub reconcile_original : Function → Action W Function (Unit {0})
  unfolding reconcile_function write_back finish
  reconcile_original original = do
    modify_object (λ _. original)
    result ← attempt reconcile_function
    write_back original.status
    finish result

  -- What Reconcile does with the answer of the API server.
  unfoldable pub found_function : Result Unstructured → Action W Function (Unit {0})
  unfolding reconcile_original
  found_function (ok untyped) = reconcile_original (libs.from_unstructured untyped)
  found_function (err e) = if e.not_found then pure tt else fail e

  -- Reconcile once the key is split.
  unfoldable pub reconcile_split : Result (String × String) → Action W Function (Unit {0})
  unfolding found_function
  reconcile_split (err _) = pure tt
  reconcile_split (ok (namespace, name)) = do
    found ← attempt (call env (get_function namespace name))
    found_function found

  -- (*Reconciler).Reconcile
  unfoldable pub reconcile_key : String → Action W Function (Unit {0})
  unfolding reconcile_split
  reconcile_key key = reconcile_split (libs.split_meta_namespace_key key)
