-- ===== src/Functions/Panicked.antt =====
-- Why reconcile of pkg/reconciler/functions/functions.go panics, when it does.
use Prim.Native.String.{◌++◌}
use knative_functions_contro.Common.{
  String, ◌≡◌, refl, sym, ap, ◌∙◌, inl, inr, none, Option-cases, panicked,
}
use knative_functions_contro.Kube.Objects.{ConfigMap, Route, Service}
use knative_functions_contro.Kube.Api.{Env, get_config_map}
use knative_functions_contro.Kube.Action.{State, pure, actions}
use knative_functions_contro.Kube.Inversion.{IsAnswer}
use knative_functions_contro.Kube.Panics.{
  bind-NeverPanics, pure-NeverPanics, modify_object-NeverPanics,
}
use knative_functions_contro.Kube.Panicking.{
  PanicsAt, NeverPanics-PanicsAt, bind-panics, catch-panics,
}
use knative_functions_contro.Kube.Libraries.{Libraries}
use knative_functions_contro.Duck.Types.{Function}
use knative_functions_contro.Functions.Steps.{check_service, reconcile_route}
use knative_functions_contro.Functions.Seen.{IsServiceSeen, IsRouteSeen}
use knative_functions_contro.Functions.Given.{
  IsFramed-initialized, check_service-inv, reconcile_route-inv,
}
use knative_functions_contro.Functions.Judged.{judge_service-inv}
use knative_functions_contro.Functions.Reported.{initialized}
use knative_functions_contro.Functions.Kept.{check_service-keeps, reconcile_route-keeps}
use knative_functions_contro.Functions.Marked.{marked-inv}
use knative_functions_contro.Functions.Panicking.{
  IsUnentered, reconcile_config-panics, reconcile_service-panics,
}
use knative_functions_contro.Functions.Total.{
  mark_and_fail-NeverPanics, check_service-NeverPanics, reconcile_route-NeverPanics,
  judge_route-NeverPanics, judge_service-NeverPanics,
}
use knative_functions_contro.Functions.Reconciler.{
  publish, sync_config, sync_route, sync_service, unless_deleted, reconcile_function,
}
use knative_functions_contro.Functions.Steps.{
  propagate_service_status_if_error, propagate_route_status,
}

module _ {W : Type 0} (env : Env W) (libs : Libraries) (function_name : String) where
  -- What makes it panic: the namespace is not set; the route has no address, or there is no entry for
  -- it in the configuration; or the template of the service has no annotations.
  pub data Panic (before : Function) : Type 0 where
    no_namespace : libs.system_namespace ≡ none → Panic before
    no_entry :
        (ns : String) (cm : ConfigMap) (route : Route)
        → IsAnswer env (get_config_map ns ("config-function-" ++ function_name)) cm
        → IsRouteSeen env libs function_name before route
        → IsUnentered env libs function_name cm route
        → Panic before
    no_annotations :
        (svc : Service)
        → IsServiceSeen env libs function_name svc
        → svc.spec.annotations ≡ none
        → Panic before

  sync_config-panics :
      (before : Function) (svc : Service) (route : Route) (s t : State W Function)
      → IsServiceSeen env libs function_name svc
      → IsRouteSeen env libs function_name before route
      → PanicsAt (sync_config env libs function_name svc route) s t
      → Panic before
  unfolding sync_config publish
  sync_config-panics before svc route s t seen_s seen_r h = elim (bind-panics _ _ s t h) [
    | inl out ↦
        elim (reconcile_config-panics env libs function_name route s t
          (catch-panics _ _ s t (mark_and_fail-NeverPanics _) out)) [
            | inl unset ↦ no_namespace unset
            | inr (ns, cm, got, cause) ↦ no_entry ns cm route got seen_r cause
          ]
    | inr (cm, u, _, h1) ↦ elim (bind-panics _ _ u t h1) [
      | inl out ↦ absurd (NeverPanics-PanicsAt _ u t (modify_object-NeverPanics _) out)
      | inr (_, v, _, h2) ↦ elim (bind-panics _ _ v t h2) [
        | inl out ↦ no_annotations svc seen_s (
            reconcile_service-panics env libs function_name svc cm v t
              (catch-panics _ _ v t (mark_and_fail-NeverPanics _) out))
        | inr (_, w, _, h3) ↦ absurd (
            NeverPanics-PanicsAt _ w t
              (bind-NeverPanics _ _ (modify_object-NeverPanics _)
                (λ _. modify_object-NeverPanics _))
              h3)
      ]
    ]
  ]

  sync_route-panics :
      (before : Function) (svc : Service) (s t : State W Function)
      → IsServiceSeen env libs function_name svc
      → s.object ≡ initialized libs before
      → PanicsAt (sync_route env libs function_name svc) s t
      → Panic before
  unfolding sync_route propagate_route_status
  sync_route-panics before svc s t seen at h = elim (bind-panics _ _ s t h) [
    | inl out ↦ absurd (
        NeverPanics-PanicsAt _ s t (reconcile_route-NeverPanics env libs function_name)
          (catch-panics _ _ s t (mark_and_fail-NeverPanics _) out))
    | inr (route, u, got, h1) ↦
        let (found, _) =
          marked-inv _ (reconcile_route env libs function_name) _ s route u
            (reconcile_route-keeps env libs function_name s) at got in
        elim (bind-panics _ _ u t h1) [
          | inl out ↦
              absurd
                (NeverPanics-PanicsAt _ u t (judge_route-NeverPanics env libs function_name _) out)
          | inr (_, v, _, h2) ↦
              sync_config-panics before svc route v t seen
                (reconcile_route-inv env libs function_name before s route u
                  (IsFramed-initialized libs before s.object at) found)
                h2
        ]
  ]

  sync_service-panics :
      (before : Function) (s t : State W Function)
      → s.object ≡ initialized libs before
      → PanicsAt (sync_service env libs function_name) s t
      → Panic before
  unfolding sync_service propagate_service_status_if_error
  sync_service-panics before s t at h = elim (bind-panics _ _ s t h) [
    | inl out ↦ absurd (
        NeverPanics-PanicsAt _ s t (check_service-NeverPanics env libs function_name)
          (catch-panics _ _ s t (mark_and_fail-NeverPanics _) out))
    | inr (svc, u, got, h1) ↦
        let (found, same) =
          marked-inv _ (check_service env libs function_name) _ s svc u
            (check_service-keeps env libs function_name s) at got in
        elim (bind-panics _ _ u t h1) [
          | inl out ↦ absurd (
              NeverPanics-PanicsAt _ u t (judge_service-NeverPanics env libs function_name svc _)
                out)
          | inr (r, v, ready, h2) ↦
              sync_route-panics before svc v t
                (check_service-inv env libs function_name s svc u found)
                (judge_service-inv env libs function_name svc _ _ u r v same ready) h2
        ]
  ]

  -- If reconcile panics, the Function was not being deleted, and this is why: the system's namespace is
  -- not set; or the route that was read or created has no address, or its address has a URL whose host
  -- does not give the two parts of the key, or the configuration that was read from the config map is
  -- parsed as a nil map; or the template of the service that was read has a nil map of annotations.
  pub reconcile_function-panics :
      (s t : State W Function)
      → reconcile_function env libs function_name s ≡ (panicked, t)
      → (s.object.meta.deletion_timestamp ≡ none) × Panic s.object
  unfolding reconcile_function unless_deleted actions
  reconcile_function-panics s t h = elim (Option-cases s.object.meta.deletion_timestamp) [
    | inl alive ↦
        let started : PanicsAt (unless_deleted env libs function_name none) s t =
          sym (ap (λ o. unless_deleted env libs function_name o s) alive) ∙ h in
        (
          alive,
          sync_service-panics s.object (record s { object = initialized libs s.object }) t refl
              started,
        )
    | inr (stamp, deleted) ↦
        let kept : PanicsAt (pure tt) s t =
          sym (ap (λ o. unless_deleted env libs function_name o s) deleted) ∙ h in
        absurd (NeverPanics-PanicsAt _ s t (pure-NeverPanics tt) kept)
  ]
