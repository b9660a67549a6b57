-- ===== src/Functions/Published.antt =====
-- What a successful reconcile publishes, and that a failed one publishes nothing.
use knative_functions_contro.Common.{
  String, ◌≡◌, ap, true, some, [], ◌∷◌, Error, inl, inr, arith, Option-cases, Option, none,
  returned, failed,
}
use knative_functions_contro.Kube.Objects.{Route, Service}
use knative_functions_contro.Kube.Api.{Env}
use knative_functions_contro.Kube.Action.{State, ◌>>◌, actions}
use knative_functions_contro.Kube.Triple.{
  Triple, Triple-bind, Triple-modify, Triple-weaken, Post, Triple-pure,
}
use knative_functions_contro.Kube.Conditions.{ConditionLaws, condition_ready}
use knative_functions_contro.Kube.Libraries.{Libraries}
use knative_functions_contro.Duck.Types.{Function}
use knative_functions_contro.Duck.Lifecycle.{
  function_condition_route_ready, function_condition_service_synced, initialize_conditions,
}
use knative_functions_contro.Functions.Steps.{
  propagate_service_status_if_error, propagate_route_status,
}
use knative_functions_contro.Functions.Reconciler.{
  sync_config, sync_route, sync_service, unless_deleted, reconcile_function,
}
use knative_functions_contro.Functions.Seen.{
  IsServiceSeen, IsRouteSeen, check_service-seen, reconcile_route-seen,
}
use knative_functions_contro.Functions.Status.{
  IsUnpublished, HasFailed, is_ready_condition, IsExplained-service, IsExplained-route,
  judge_service-Triple, judge_route-Triple,
}
use knative_functions_contro.Functions.Publishing.{IsPublished, marked_step, sync_config-Triple}

module _ (libs : Libraries) (laws : ConditionLaws libs.conditions) (before : Function) where
  module _ {W : Type 0} (env : Env W) (function_name : String) where
    -- The end of a success: the service and the route are those that the environment answered with.
    abbrev pub Success : Unit {0} → Function → Type 0
    Success _ after =
        (svc : Service) × (route : Route) × IsServiceSeen env libs function_name svc
        × IsRouteSeen env libs function_name before route
        × IsPublished libs svc route before after

    ready_route :
        (svc : Service) (route : Route)
        → IsServiceSeen env libs function_name svc
        → is_ready_condition (libs.status_condition svc.conditions condition_ready) ≡ true
        → IsRouteSeen env libs function_name before route
        → Triple
            (IsUnpublished before)
            (propagate_route_status env libs function_name route
              >> sync_config env libs function_name svc route)
            Success
            (λ _. HasFailed libs before)
    unfolding propagate_route_status
    ready_route svc route seen saw_s seen_r =
        Triple-bind _ (λ _. sync_config env libs function_name svc route)
          (judge_route-Triple libs laws before env function_name _)
          (λ _. record {
            at = λ s h.
                (Triple-weaken _
                    (sync_config-Triple libs laws before env function_name svc route saw_s h.1)
                    (λ _ q. q) (λ _ _ q. (svc, route, seen, seen_r, q)) (λ _ _ q. q)).at
                  s (h.0, h.2);
          })

    sync_route-Triple :
        (svc : Service)
        → IsServiceSeen env libs function_name svc
        → is_ready_condition (libs.status_condition svc.conditions condition_ready) ≡ true
        → Triple
            (IsUnpublished before)
            (sync_route env libs function_name svc)
            Success
            (λ _. HasFailed libs before)
    unfolding sync_route
    sync_route-Triple svc seen saw_s =
        Triple-bind _ _
          (marked_step libs laws before env function_name function_condition_route_ready
            "ReconcileFailed" (λ _. "%v") (λ e. e.message ∷ []) _
            (IsExplained-route libs laws before) (λ fn h. h)
            (reconcile_route-seen env libs function_name (IsUnpublished before) before
              (λ fn h. h.framed)))
          (λ route. record { at = λ s h. (ready_route svc route seen saw_s h.1).at s h.0 })

    sync_service-Triple :
        Triple
          (IsUnpublished before)
          (sync_service env libs function_name)
          Success
          (λ _. HasFailed libs before)
    unfolding sync_service propagate_service_status_if_error
    sync_service-Triple =
        Triple-bind _ _
          (marked_step libs laws before env function_name function_condition_service_synced
            "CheckExistFailed" (λ e. e.message) (λ _. []) _ (IsExplained-service libs laws before)
            (λ fn h. h) (check_service-seen env libs function_name (IsUnpublished before)))
          (λ svc. record { at = λ s h. (ready_service svc h.1).at s h.0 })
      where
        ready_service :
            (svc : Service)
            → IsServiceSeen env libs function_name svc
            → Triple
                (IsUnpublished before)
                (propagate_service_status_if_error env libs function_name svc
                  >> sync_route env libs function_name svc)
                Success
                (λ _. HasFailed libs before)
        ready_service svc seen =
            Triple-bind _ _ (judge_service-Triple libs laws before env function_name svc _)
              (λ _. record { at = λ s h. (sync_route-Triple svc seen h.1).at s h.0 })

module _ {W : Type 0} (env : Env W) (libs : Libraries) (laws : ConditionLaws libs.conditions)
    (function_name : String) where
  unless_deleted-Triple :
      (before : Function) (o : Option String)
      → Triple
          (λ fn. (o ≡ none) × IsUnpublished before fn)
          (unless_deleted env libs function_name o)
          (Success libs laws before env function_name)
          (λ _. HasFailed libs before)
  unfolding unless_deleted
  unless_deleted-Triple before (some t) = Triple-pure tt (λ fn h. cc (h.0))
  unless_deleted-Triple before none =
      Triple-modify {P' = IsUnpublished before} _ _
        (λ fn h. unfold initialize_conditions in ground (arith, h.1))
        (sync_service-Triple libs laws before env function_name)

  IsUnpublished-refl : (fn : Function) → IsUnpublished fn fn
  IsUnpublished-refl fn = ground arith

  reconcile_function-Post :
      (s : State W Function)
      → s.object.meta.deletion_timestamp ≡ none
      → Post
          (Success libs laws s.object env function_name)
          (λ _. HasFailed libs s.object)
          (reconcile_function env libs function_name s)
  unfolding reconcile_function actions
  reconcile_function-Post s h =
      (unless_deleted-Triple s.object s.object.meta.deletion_timestamp).at s
        (h, IsUnpublished-refl s.object)

  -- If a reconcile of a Function that is not being deleted returns no error, then there are a ready
  -- service and a ready route such that: the environment answers, in some world, the read of the
  -- kind's service by that service; it answers, in some world, the read of the Function's route by
  -- that route, which the Function controls, or else the creation of the Function's route by that
  -- route; the Function's metadata and spec are as they were, its address is
  -- http://name.namespace.svc.domain of the route, its URL is the route's, its generation is
  -- recorded as observed, and it is ready, with its ConfigMapSynced, ServiceReady, RouteReady and
  -- Addressable conditions True.
  pub reconcile_function-publishes :
      (s s' : State W Function)
      → s.object.meta.deletion_timestamp ≡ none
      → reconcile_function env libs function_name s ≡ (returned tt, s')
      → (svc : Service) × (route : Route) × IsServiceSeen env libs function_name svc
        × IsRouteSeen env libs function_name s.object route
        × IsPublished libs svc route s.object s'.object
  reconcile_function-publishes s s' h e = rw e at (reconcile_function-Post s h)

  -- A Function that is being deleted is left alone: no call is made, nothing changes, no error.
  pub reconcile_function_deleted :
      (s : State W Function) (t : String)
      → s.object.meta.deletion_timestamp ≡ some t
      → reconcile_function env libs function_name s ≡ (returned tt, s)
  unfolding reconcile_function actions
  reconcile_function_deleted s t h = ap (λ o. unless_deleted env libs function_name o s) h

  -- A reconcile that returns an error has published nothing: the Function's metadata, spec, address,
  -- URL and observed generation are as they were. One of its conditions ServiceReady, RouteReady and
  -- ConfigMapSynced is then False.
  pub reconcile_function-fails :
      (s s' : State W Function) (x : Error)
      → reconcile_function env libs function_name s ≡ (failed x, s')
      → HasFailed libs s.object s'.object
  reconcile_function-fails s s' x e = elim (Option-cases s.object.meta.deletion_timestamp) [
    | inl alive ↦ rw e at (reconcile_function-Post s alive)
    | inr (t, deleted) ↦ cc (e, reconcile_function_deleted s t deleted)
  ]
