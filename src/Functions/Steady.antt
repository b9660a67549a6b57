-- ===== src/Functions/Steady.antt =====
-- reconcile of pkg/reconciler/functions/functions.go on a cluster where all that a Function needs is
-- there and ready.
use Prim.Native.String.{◌++◌}
use knative_functions_contro.Common.{
  String, ◌≡◌, ◌≢◌, refl, ap, ◌∙◌, true, none, some, ◌∷◌, Dict, insert, ok, returned,
}
use knative_functions_contro.Kube.Objects.{Addressable, ConfigMap, Route, Service, Url}
use knative_functions_contro.Kube.Api.{
  Env, get_config_map, get_route, get_service, update_config_map, update_service,
}
use knative_functions_contro.Kube.Action.{State, actions}
use knative_functions_contro.Kube.Conditions.{ConditionLaws, condition_ready}
use knative_functions_contro.Kube.Libraries.{JsonLaws, Libraries, Value, raw_extension}
use knative_functions_contro.Duck.Types.{Function}
use knative_functions_contro.Duck.Lifecycle.{
  initialize_conditions, is_ready, mark_true, set_address, mark_config_map_synced, mark_route_ready,
  mark_service_synced,
}
use knative_functions_contro.Resources.Route.{make_route_name}
use knative_functions_contro.Functions.Steps.{functions_namespace, with_status, with_version}
use knative_functions_contro.Functions.Config.{host_key}
use knative_functions_contro.Functions.Reconciler.{
  publish, route_url, reconcile_function, unless_deleted,
}
use knative_functions_contro.Functions.Status.{is_ready_condition}
use knative_functions_contro.Functions.Published.{reconcile_function-publishes}
use knative_functions_contro.Functions.Entries.{config_text, written}
use knative_functions_contro.Functions.ServiceSync.{template_version}
use knative_functions_contro.Functions.Answered.{
  marked, sync_config_ok, sync_route_ok, sync_service_ok, reconcile_config_stored, calls_synced,
  reconcile_service_ok, reconcile_route_owned,
}

module _ {W : Type 0} (env : Env W) (libs : Libraries) (function_name : String) where
  -- A Function that is not being deleted, whose service is there and ready; whose route is there, its
  -- own, and ready, with a URL in its address whose host has a dot; and whose config map is there, with
  -- a configuration that can be parsed, a map, and can be serialised and stored with the Function's
  -- entry. Unless the service carries the version that the server answers for that update of the config
  -- map, its template has annotations, and the server accepts the update of the service to that
  -- version. Then reconcile returns no error. It makes these calls only: three reads, the update of the
  -- config map and, unless the service carries the version of the answer, that update of the service;
  -- and it leaves the Function ready, with the address of that route.
  pub reconcile_function-succeeds :
      (conditions : ConditionLaws libs.conditions) (json : JsonLaws libs) (ns host raw : String)
      (svc svc' : Service) (annotations : Dict String) (route : Route) (a : Addressable) (key : Url)
      (cm cm' : ConfigMap) (m : Dict Value) (w1 w2 w3 w4 w5 : W) (s : State W Function)
      → s.object.meta.deletion_timestamp ≡ none
      → env.answer (get_service functions_namespace function_name) s.world ≡ (ok svc, w1)
      → is_ready_condition (libs.status_condition svc.conditions condition_ready) ≡ true
      → env.answer
          (get_route functions_namespace
            (make_route_name function_name s.object.meta.name s.object.meta.namespace))
          w1
        ≡ (ok route, w2)
      → libs.is_controlled_by route.meta s.object.meta ≡ true
      → is_ready_condition (libs.status_condition route.status.conditions condition_ready) ≡ true
      → route.status.address ≡ some a
      → a.url ≡ some key
      → host_key key.host ≡ some host
      → libs.system_namespace ≡ some ns
      → env.answer (get_config_map ns ("config-function-" ++ function_name)) w2 ≡ (ok cm, w3)
      → libs.unmarshal_config (config_text cm) ≡ ok (some m)
      → libs.marshal_config (some (insert host (raw_extension s.object.spec) m)) ≡ ok raw
      → env.answer (update_config_map ns (written cm raw)) w3 ≡ (ok cm', w4)
      → (template_version svc ≢ cm'.meta.resource_version
          → (svc.spec.annotations ≡ some annotations)
            × (env.answer
                  (update_service svc.meta.namespace
                    (with_version svc cm'.meta.resource_version annotations))
                  w4
                ≡ (ok svc', w5)))
      → (s' : State W Function) × (reconcile_function env libs function_name s ≡ (returned tt, s'))
        × (s'.calls
            ≡ calls_synced svc cm'.meta.resource_version annotations (
                update_config_map ns (written cm raw)
                ∷ get_config_map ns ("config-function-" ++ function_name)
                ∷ get_route functions_namespace
                    (make_route_name function_name s.object.meta.name s.object.meta.namespace)
                ∷ get_service functions_namespace function_name
                ∷ s.calls))
        × (is_ready libs.conditions s'.object.status ≡ true)
        × (s'.object.status.address ≡ some (record { url = some (route_url libs route) }))
  unfolding reconcile_function unless_deleted publish set_address mark_true actions
  reconcile_function-succeeds conditions json ns host raw svc svc' annotations route a key cm cm' m
        w1 w2 w3 w4 w5 s alive hs ready_s hr owned ready_r ha hu hh hn hc parsed hm hw hv =
      let s0 : State W Function = marked (with_status (initialize_conditions libs.conditions)) s in
      let s1 : State W Function = record s0 {
        world = w1;
        calls = get_service functions_namespace function_name ∷ s.calls;
      } in
      let s2 : State W Function = record s1 {
        world = w2;
        calls =
            get_route functions_namespace
              (make_route_name function_name s.object.meta.name s.object.meta.namespace)
            ∷ s1.calls;
      } in
      let s3 : State W Function = marked (with_status (mark_route_ready libs.conditions)) s2 in
      let s4 : State W Function = record s3 {
        world = w4;
        calls =
            update_config_map ns (written cm raw)
            ∷ get_config_map ns ("config-function-" ++ function_name)
            ∷ s2.calls;
      } in
      let s5 : State W Function =
        marked (with_status (mark_config_map_synced libs.conditions)) s4 in
      let (updated, s6, synced, made) =
        reconcile_service_ok env libs function_name svc svc' annotations cm' w5 s5 hv in
      let s' : State W Function =
        marked (publish libs route)
          (marked (with_status (mark_service_synced libs.conditions)) s6) in
      let e : reconcile_function env libs function_name s ≡ (returned tt, s') =
        ap (λ o. unless_deleted env libs function_name o s) alive
        ∙ sync_service_ok env libs function_name svc w1 s0 hs ready_s
        ∙ sync_route_ok env libs function_name svc route s1 s2
            (reconcile_route_owned env libs function_name route w2 s1 hr owned) ready_r
        ∙ sync_config_ok env libs function_name svc updated route cm' s3 s4 s6
            (reconcile_config_stored env libs function_name json ns host raw cm cm' route a key m w3
              w4 s3 hn hc ha hu hh parsed hm hw)
            synced in
      let (_, _, _, _, published) =
        reconcile_function-publishes env libs conditions function_name s s' alive e in
      (s', e, made, published.ready, refl)
