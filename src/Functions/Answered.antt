-- ===== src/Functions/Answered.antt =====
-- The steps of reconcile of pkg/reconciler/functions/functions.go whose calls are answered with what
-- they need.
use Prim.Native.String.{◌++◌}
use knative_functions_contro.Common.{
  String, ◌≡◌, ◌≢◌, refl, ◌∙◌, inl, inr, arith, true, none, some, ◌==◌, eq_iff, Bool-cases,
  if◌then◌else◌, List, ◌∷◌, Dict, insert, ok, Option, returned,
}
use knative_functions_contro.Kube.Objects.{Addressable, Condition, ConfigMap, Route, Service, Url}
use knative_functions_contro.Kube.Api.{
  Call, Env, get_config_map, get_route, get_service, update_config_map, update_service,
}
use knative_functions_contro.Kube.Action.{State, actions}
use knative_functions_contro.Kube.Conditions.{condition_ready}
use knative_functions_contro.Kube.Libraries.{JsonLaws, Libraries, Value, raw_extension}
use knative_functions_contro.Duck.Types.{Function}
use knative_functions_contro.Duck.Lifecycle.{
  mark_config_map_synced, mark_route_ready, mark_service_synced,
}
use knative_functions_contro.Resources.Route.{make_route_name}
use knative_functions_contro.Functions.Steps.{
  check_service, functions_namespace, judge_route, judge_service, propagate_route_status,
  propagate_service_status_if_error, reconcile_route, reconcile_service, with_status, with_version,
  save_version,
}
use knative_functions_contro.Functions.Config.{host_key, reconcile_config, save_config}
use knative_functions_contro.Functions.Reconciler.{publish, sync_config, sync_route, sync_service}
use knative_functions_contro.Functions.Status.{is_ready_condition}
use knative_functions_contro.Functions.Entries.{
  config_text, is_stale_read, update_config_stale, written,
}
use knative_functions_contro.Functions.ServiceSync.{
  reconcile_service_same, reconcile_service_differs, template_version,
}

-- The state with a change of the status.
abbrev pub marked : {W : Type 0} → (Function → Function) → State W Function → State W Function
marked f s = record s { object = f s.object }

-- What the calls are once reconcileService is done with the service, for this version.
abbrev pub calls_synced : Service → String → Dict String → List Call → List Call
calls_synced svc version annotations calls =
    if template_version svc == version
    then calls
    else update_service svc.meta.namespace (with_version svc version annotations) ∷ calls

module _ {W : Type 0} (env : Env W) (libs : Libraries) (function_name : String) where
  pub sync_config_ok :
      (svc updated : Service) (route : Route) (cm : ConfigMap) (s s1 s2 : State W Function)
      → reconcile_config env libs function_name (some route) s ≡ (returned cm, s1)
      → reconcile_service env libs function_name svc cm
          (marked (with_status (mark_config_map_synced libs.conditions)) s1)
        ≡ (returned updated, s2)
      → sync_config env libs function_name svc route s ≡ (
        returned tt,
        marked (publish libs route) (marked (with_status (mark_service_synced libs.conditions)) s2),
      )
  unfolding sync_config actions
  sync_config_ok svc updated route cm s s1 s2 hc hs = rw (hc, hs)

  judge_service_ok :
      (svc : Service) (o : Option Condition) (s : State W Function)
      → is_ready_condition o ≡ true
      → judge_service env libs function_name svc o s ≡ (returned tt, s)
  unfolding judge_service actions
  judge_service_ok svc none s h = cc
  judge_service_ok svc (some c) s h = ground (arith, h)

  judge_route_ok :
      (o : Option Condition) (s : State W Function)
      → is_ready_condition o ≡ true
      → judge_route env libs function_name o s
        ≡ (returned tt, marked (with_status (mark_route_ready libs.conditions)) s)
  unfolding judge_route actions
  judge_route_ok none s h = cc
  judge_route_ok (some c) s h = ground (arith, h)

  pub sync_route_ok :
      (svc : Service) (route : Route) (s s1 : State W Function)
      → reconcile_route env libs function_name s ≡ (returned route, s1)
      → is_ready_condition (libs.status_condition route.status.conditions condition_ready) ≡ true
      → sync_route env libs function_name svc s
        ≡ sync_config env libs function_name svc route
            (marked (with_status (mark_route_ready libs.conditions)) s1)
  unfolding sync_route propagate_route_status actions
  sync_route_ok svc route s s1 hr ready = rw (hr, judge_route_ok _ s1 ready)

  pub sync_service_ok :
      (svc : Service) (w : W) (s : State W Function)
      → env.answer (get_service functions_namespace function_name) s.world ≡ (ok svc, w)
      → is_ready_condition (libs.status_condition svc.conditions condition_ready) ≡ true
      → sync_service env libs function_name s
        ≡ sync_route env libs function_name svc (record s {
          world = w;
          calls = get_service functions_namespace function_name ∷ s.calls;
        })
  unfolding sync_service check_service propagate_service_status_if_error actions
  sync_service_ok svc w s ha ready = rw (ha, judge_service_ok svc _ _ ready)

  pub reconcile_route_owned :
      (route : Route) (w : W) (s : State W Function)
      → env.answer
          (get_route functions_namespace
            (make_route_name function_name s.object.meta.name s.object.meta.namespace))
          s.world
        ≡ (ok route, w)
      → libs.is_controlled_by route.meta s.object.meta ≡ true
      → reconcile_route env libs function_name s ≡ (
        returned route,
        record s {
          world = w;
          calls =
              get_route functions_namespace
                (make_route_name function_name s.object.meta.name s.object.meta.namespace)
              ∷ s.calls;
        },
      )
  unfolding reconcile_route actions
  reconcile_route_owned route w s ha owned = rw (ha, owned)

  pub reconcile_config_stored :
      (laws : JsonLaws libs) (ns host raw : String) (cm cm' : ConfigMap) (route : Route)
      (a : Addressable) (key : Url) (m : Dict Value) (w w' : W) (s : State W Function)
      → libs.system_namespace ≡ some ns
      → env.answer (get_config_map ns ("config-function-" ++ function_name)) s.world ≡ (ok cm, w)
      → route.status.address ≡ some a
      → a.url ≡ some key
      → host_key key.host ≡ some host
      → libs.unmarshal_config (config_text cm) ≡ ok (some m)
      → libs.marshal_config (some (insert host (raw_extension s.object.spec) m)) ≡ ok raw
      → env.answer (update_config_map ns (written cm raw)) w ≡ (ok cm', w')
      → reconcile_config env libs function_name (some route) s ≡ (
        returned cm',
        record s {
          world = w';
          calls =
              update_config_map ns (written cm raw)
              ∷ get_config_map ns ("config-function-" ++ function_name)
              ∷ s.calls;
        },
      )
  unfolding reconcile_config save_config actions
  reconcile_config_stored laws ns host raw cm cm' route a key m w w' s hn hg ha hu hh hr hm hw =
      rw (
        hn,
        hg,
        update_config_stale env libs function_name ns host cm route a key m
            (record s {
              world = w;
              calls = get_config_map ns ("config-function-" ++ function_name) ∷ s.calls;
            })
            ha hu hh hr (is_stale_read libs laws (config_text cm) host s.object.spec (some m) hr),
        hm,
        hw,
      )

  pub reconcile_service_ok :
      (svc svc' : Service) (annotations : Dict String) (cm : ConfigMap) (w : W)
      (s : State W Function)
      → (template_version svc ≢ cm.meta.resource_version
          → (svc.spec.annotations ≡ some annotations)
            × (env.answer
                  (update_service svc.meta.namespace
                    (with_version svc cm.meta.resource_version annotations))
                  s.world
                ≡ (ok svc', w)))
      → (updated : Service) × (s' : State W Function) × (reconcile_service env libs function_name
            svc cm s
          ≡ (returned updated, s'))
        × (s'.calls ≡ calls_synced svc cm.meta.resource_version annotations s.calls)
  unfolding save_version actions
  reconcile_service_ok svc svc' annotations cm w s h =
      elim (Bool-cases (template_version svc == cm.meta.resource_version)) [
        | inl same ↦
            let e = (eq_iff (template_version svc) cm.meta.resource_version).0 same in
            (svc, s, reconcile_service_same env libs function_name svc cm s e, rw same refl)
        | inr other ↦
            let ne : template_version svc ≢ cm.meta.resource_version =
              λ e. cc (other, (eq_iff (template_version svc) cm.meta.resource_version).1 e) in
            let (annotated, accepted) = h ne in
            (
              svc',
              record s {
                world = w;
                calls =
                    update_service svc.meta.namespace
                      (with_version svc cm.meta.resource_version annotations)
                    ∷ s.calls;
              },
              reconcile_service_differs env libs function_name svc cm s ne
                  ∙ rw (annotated, accepted),
              rw other refl,
            )
      ]
