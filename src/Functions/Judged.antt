-- ===== src/Functions/Judged.antt =====
-- The checks of pkg/reconciler/functions/functions.go that the service and the route are ready.
use Prim.Native.String.{◌++◌}
use knative_functions_contro.Common.{
  String, ◌≡◌, refl, sym, ap, ◌∙◌, inl, inr, false, none, some, [], Option, Error,
}
use knative_functions_contro.Kube.Objects.{Condition, Service}
use knative_functions_contro.Kube.Api.{Env}
use knative_functions_contro.Kube.Action.{State, actions}
use knative_functions_contro.Kube.Inversion.{Returns, if-inv}
use knative_functions_contro.Kube.Failures.{FailsWith, if-fails}
use knative_functions_contro.Kube.Libraries.{Libraries}
use knative_functions_contro.Duck.Types.{Function}
use knative_functions_contro.Duck.Lifecycle.{
  mark_route_not_ready, mark_route_ready, mark_service_not_synced,
}
use knative_functions_contro.Functions.Status.{is_ready_condition}
use knative_functions_contro.Functions.Steps.{
  error, with_status, is_condition_true, judge_service, judge_route,
}
use knative_functions_contro.Functions.Reported.{why_unready}

module _ {W : Type 0} (env : Env W) (libs : Libraries) (function_name : String) where
  -- A readiness check that fails has marked the status by the condition.
  pub judge_route-fails :
      (o : Option Condition) (fn : Function) (s : State W Function) (x : Error)
      (t : State W Function)
      → s.object ≡ fn
      → FailsWith (judge_route env libs function_name o) s x t
      → (is_ready_condition o ≡ false)
        × (x ≡ error "route is not ready")
        × (t.object
            ≡ with_status
                (mark_route_not_ready libs.conditions (why_unready o).0 (why_unready o).1 [])
                fn)
  unfolding judge_route actions
  judge_route-fails none fn s x t at h = (
    refl,
    cc h,
    sym (ap (λ q. q.1.object) h)
        ∙ ap (with_status (mark_route_not_ready libs.conditions "Unknown" "" [])) at,
  )
  judge_route-fails (some c) fn s x t at h = elim (if-fails _ (is_condition_true c) _ s x t h) [
    | inl (ready, it) ↦ cc it
    | inr (unready, it) ↦ (
      unready,
      cc it,
      sym (ap (λ q. q.1.object) it)
          ∙ ap (with_status (mark_route_not_ready libs.conditions c.reason c.message [])) at,
    )
  ]

  pub judge_route-inv :
      (o : Option Condition) (fn : Function) (s : State W Function) (r : Unit {0})
      (t : State W Function)
      → s.object ≡ fn
      → Returns (judge_route env libs function_name o) s r t
      → t.object ≡ with_status (mark_route_ready libs.conditions) fn
  unfolding judge_route actions
  judge_route-inv none fn s r t at h = cc h
  judge_route-inv (some c) fn s r t at h = elim (if-inv _ (is_condition_true c) _ s r t h) [
    | inl (ready, it) ↦
        sym (ap (λ q. q.1.object) it) ∙ ap (with_status (mark_route_ready libs.conditions)) at
    | inr (unready, it) ↦ cc it
  ]

  pub judge_service-fails :
      (svc : Service) (o : Option Condition) (fn : Function) (s : State W Function) (x : Error)
      (t : State W Function)
      → s.object ≡ fn
      → FailsWith (judge_service env libs function_name svc o) s x t
      → (is_ready_condition o ≡ false)
        × (x ≡ error ("service " ++ svc.meta.name ++ " is not ready"))
        × (t.object
            ≡ with_status
                (mark_service_not_synced libs.conditions (why_unready o).0 (why_unready o).1 [])
                fn)
  unfolding judge_service actions
  judge_service-fails svc none fn s x t at h = (
    refl,
    cc h,
    sym (ap (λ q. q.1.object) h)
        ∙ ap (with_status (mark_service_not_synced libs.conditions "Unknown" "" [])) at,
  )
  judge_service-fails svc (some c) fn s x t at h =
      elim (if-fails _ (is_condition_true c) _ s x t h) [
        | inl (ready, it) ↦ cc it
        | inr (unready, it) ↦ (
          unready,
          cc it,
          sym (ap (λ q. q.1.object) it)
              ∙ ap (with_status (mark_service_not_synced libs.conditions c.reason c.message [])) at,
        )
      ]

  pub judge_service-inv :
      (svc : Service) (o : Option Condition) (fn : Function) (s : State W Function) (r : Unit {0})
      (t : State W Function)
      → s.object ≡ fn
      → Returns (judge_service env libs function_name svc o) s r t
      → t.object ≡ fn
  unfolding judge_service actions
  judge_service-inv svc none fn s r t at h = cc h
  judge_service-inv svc (some c) fn s r t at h = elim (if-inv _ (is_condition_true c) _ s r t h) [
    | inl (ready, it) ↦ sym (ap (λ q. q.1.object) it) ∙ at
    | inr (unready, it) ↦ cc it
  ]
