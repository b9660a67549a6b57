-- ===== src/Functions/Reporting.antt =====
-- A failed reconcile of pkg/reconciler/functions/functions.go reports its error in the status.
use mathlib.Core.Path.{subst}
use knative_functions_contro.Common.{
  String, ◌≡◌, refl, sym, ap, ◌∙◌, inl, inr, none, some, [], Option-cases, Error, failed,
}
use knative_functions_contro.Kube.Objects.{ConfigMap, Route, Service}
use knative_functions_contro.Kube.Api.{Env}
use knative_functions_contro.Kube.Action.{State, catch, pure, modify_object, ◌>>◌, ◌>>=◌, actions}
use knative_functions_contro.Kube.Inversion.{modify_object-inv}
use knative_functions_contro.Kube.Failures.{FailsWith, bind-fails, pure-fails, modify_object-fails}
use knative_functions_contro.Kube.Libraries.{Libraries}
use knative_functions_contro.Duck.Types.{Function}
use knative_functions_contro.Duck.Lifecycle.{
  mark_config_map_synced, mark_service_not_synced, mark_service_synced,
}
use knative_functions_contro.Resources.Route.{route_literal}
use knative_functions_contro.Functions.Causes.{
  IsRouteless, check_service-fails, reconcile_route-fails, reconcile_service-fails,
}
use knative_functions_contro.Functions.ConfigCauses.{reconcile_config-fails}
use knative_functions_contro.Functions.Config.{reconcile_config}
use knative_functions_contro.Functions.Reconciler.{
  mark_and_fail, publish, sync_config, sync_route, sync_service, unless_deleted, reconcile_function,
}
use knative_functions_contro.Functions.Seen.{IsServiceSeen}
use knative_functions_contro.Functions.Steps.{
  check_service, reconcile_route, reconcile_service, propagate_service_status_if_error,
  propagate_route_status, with_status,
}
use knative_functions_contro.Functions.Reported.{
  initialized, routed, recorded, Report, no_service, unready_service, no_route, unready_route,
  no_config, unsynced,
}
use knative_functions_contro.Functions.Given.{
  IsFramed-initialized, check_service-inv, reconcile_route-inv,
}
use knative_functions_contro.Functions.Kept.{
  check_service-keeps, reconcile_config-keeps, reconcile_route-keeps, reconcile_service-keeps,
}
use knative_functions_contro.Functions.Marked.{marked-fails, marked-inv}
use knative_functions_contro.Functions.Judged.{
  judge_route-fails, judge_route-inv, judge_service-fails, judge_service-inv,
}

module _ {W : Type 0} (env : Env W) (libs : Libraries) (function_name : String)
    (before : Function) where
  sync_service_update :
      (svc : Service) (cm : ConfigMap) (route : Route) (s : State W Function) (x : Error)
      (t : State W Function)
      → IsServiceSeen env libs function_name svc
      → s.object ≡ recorded libs before
      → FailsWith
          (do
            updated ← catch (reconcile_service env libs function_name svc cm) (
                mark_and_fail
                  (λ e. mark_service_not_synced libs.conditions "UpdateFailed" e.message []))
            modify_object (with_status (mark_service_synced libs.conditions))
            modify_object (publish libs route))
          s
          x
          t
      → Report env libs function_name before x t.object
  sync_service_update svc cm route s x t seen at h = elim (bind-fails _ _ s x t h) [
    | inl out ↦
        let (u, failure, marked) =
          marked-fails _ (reconcile_service env libs function_name svc cm) _ s x t
            (reconcile_service-keeps env libs function_name svc cm s) at out in
        let (m, annotated, refused) =
          reconcile_service-fails env libs function_name svc cm s x u failure in
        subst (Report env libs function_name before x) (sym marked)
          (unsynced svc cm.meta.resource_version m seen annotated refused)
    | inr (updated, u, _, h1) ↦ elim (bind-fails _ _ u x t h1) [
      | inl out ↦ absurd (modify_object-fails _ u x t out)
      | inr (_, v, _, h2) ↦ absurd (modify_object-fails _ v x t h2)
    ]
  ]

  sync_config-reports :
      (svc : Service) (route : Route) (s : State W Function) (x : Error) (t : State W Function)
      → IsServiceSeen env libs function_name svc
      → s.object ≡ routed libs before
      → FailsWith (sync_config env libs function_name svc route) s x t
      → Report env libs function_name before x t.object
  unfolding sync_config
  sync_config-reports svc route s x t seen at h = elim (bind-fails _ _ s x t h) [
    | inl out ↦
        let (u, failure, marked) =
          marked-fails _ (reconcile_config env libs function_name (some route)) _ s x t
            (reconcile_config-keeps env libs function_name (some route) s) at out in
        subst (Report env libs function_name before x) (sym marked)
          (no_config (reconcile_config-fails env libs function_name route s x u failure))
    | inr (cm, u, got, h1) ↦
        let (_, same) =
          marked-inv _ (reconcile_config env libs function_name (some route)) _ s cm u
            (reconcile_config-keeps env libs function_name (some route) s) at got in
        elim (bind-fails _ _ u x t h1) [
          | inl out ↦ absurd (modify_object-fails _ u x t out)
          | inr (r, v, marked, h2) ↦
              sync_service_update svc cm route v x t seen
                (modify_object-inv _ u r v marked
                  ∙ ap (with_status (mark_config_map_synced libs.conditions)) same)
                h2
        ]
  ]

  sync_route-reports :
      (svc : Service) (s : State W Function) (x : Error) (t : State W Function)
      → IsServiceSeen env libs function_name svc
      → s.object ≡ initialized libs before
      → FailsWith (sync_route env libs function_name svc) s x t
      → Report env libs function_name before x t.object
  unfolding sync_route propagate_route_status route_literal
  sync_route-reports svc s x t seen at h = elim (bind-fails _ _ s x t h) [
    | inl out ↦
        let (u, failure, marked) =
          marked-fails _ (reconcile_route env libs function_name) _ s x t
            (reconcile_route-keeps env libs function_name s) at out in
        let cause = reconcile_route-fails env libs function_name s x u failure in
        subst (Report env libs function_name before x) (sym marked)
          (no_route (subst (λ fn. IsRouteless env libs function_name fn x) at cause))
    | inr (route, u, got, h1) ↦
        let (found, same) =
          marked-inv _ (reconcile_route env libs function_name) _ s route u
            (reconcile_route-keeps env libs function_name s) at got in
        let route_seen =
          reconcile_route-inv env libs function_name before s route u
            (IsFramed-initialized libs before s.object at) found in
        elim (bind-fails _ _ u x t h1) [
          | inl out ↦
              let (unready, named, marked) =
                judge_route-fails env libs function_name _ _ u x t same out in
              subst (Report env libs function_name before x) (sym marked)
                (unready_route route route_seen unready named)
          | inr (r, v, ready, h2) ↦
              sync_config-reports svc route v x t seen
                (judge_route-inv env libs function_name _ _ u r v same ready) h2
        ]
  ]

  sync_service-reports :
      (s : State W Function) (x : Error) (t : State W Function)
      → s.object ≡ initialized libs before
      → FailsWith (sync_service env libs function_name) s x t
      → Report env libs function_name before x t.object
  unfolding sync_service propagate_service_status_if_error
  sync_service-reports s x t at h = elim (bind-fails _ _ s x t h) [
    | inl out ↦
        let (u, failure, marked) =
          marked-fails _ (check_service env libs function_name) _ s x t
            (check_service-keeps env libs function_name s) at out in
        subst (Report env libs function_name before x) (sym marked)
          (no_service (check_service-fails env libs function_name s x u failure))
    | inr (svc, u, got, h1) ↦
        let (found, same) =
          marked-inv _ (check_service env libs function_name) _ s svc u
            (check_service-keeps env libs function_name s) at got in
        let seen = check_service-inv env libs function_name s svc u found in
        elim (bind-fails _ _ u x t h1) [
          | inl out ↦
              let (unready, named, marked) =
                judge_service-fails env libs function_name svc _ _ u x t same out in
              subst (Report env libs function_name before x) (sym marked)
                (unready_service svc seen unready named)
          | inr (r, v, ready, h2) ↦
              sync_route-reports svc v x t seen
                (judge_service-inv env libs function_name svc _ _ u r v same ready) h2
        ]
  ]

module _ {W : Type 0} (env : Env W) (libs : Libraries) (function_name : String) where
  -- If reconcile returns an error, the Function was not being deleted, and its status has got, besides
  -- the conditions that were reached before, one condition that is marked False, by the step that
  -- failed: ServiceReady if the service cannot be read, with the error's text, or if it is not ready,
  -- with the reason and the message of its condition; RouteReady if the route can neither be read nor
  -- created or is another's, with the error's text, or if it is not ready, as for the service;
  -- ConfigMapSynced, with the error's text, if the config map cannot be read, parsed, serialised or
  -- updated; ServiceReady, with the error's text, if the service cannot be updated. The error is the
  -- one of that call, or the words of the code for it.
  pub reconcile_function-reports :
      (s : State W Function) (x : Error) (t : State W Function)
      → reconcile_function env libs function_name s ≡ (failed x, t)
      → (s.object.meta.deletion_timestamp ≡ none)
        × Report env libs function_name s.object x t.object
  unfolding reconcile_function unless_deleted actions
  reconcile_function-reports s x t h = elim (Option-cases s.object.meta.deletion_timestamp) [
    | inl alive ↦
        let started : FailsWith (unless_deleted env libs function_name none) s x t =
          sym (ap (λ o. unless_deleted env libs function_name o s) alive) ∙ h in
        (
          alive,
          sync_service-reports env libs function_name s.object
              (record s { object = initialized libs s.object }) x t refl started,
        )
    | inr (stamp, deleted) ↦
        let kept : FailsWith (pure tt) s x t =
          sym (ap (λ o. unless_deleted env libs function_name o s) deleted) ∙ h in
        absurd (pure-fails tt s x t kept)
  ]
