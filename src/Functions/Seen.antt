-- ===== src/Functions/Seen.antt =====
-- Which service and which route reconcile of pkg/reconciler/functions/functions.go goes on with.
use knative_functions_contro.Common.{
  String, ◌≡◌, refl, sym, ap, ◌∙◌, ◌⊎◌, Result-cases, inl, inr, true, Bool-cases, Result, ok, err,
  from_result, Outcome, returned, failed, panicked, ◌∷◌,
}
use knative_functions_contro.Kube.Objects.{Route, Service}
use knative_functions_contro.Kube.Api.{Call, Env, Reply, create_route, get_route, get_service}
use knative_functions_contro.Kube.Action.{State, actions}
use knative_functions_contro.Kube.Triple.{Post, Triple}
use knative_functions_contro.Kube.Inversion.{IsAnswer}
use knative_functions_contro.Kube.Libraries.{Libraries}
use knative_functions_contro.Duck.Types.{Function}
use knative_functions_contro.Resources.Route.{make_route, make_route_name, route_literal}
use knative_functions_contro.Functions.Steps.{
  check_service, found_route, functions_namespace, reconcile_route,
}
use knative_functions_contro.Functions.Status.{IsFramed}

module _ {W : Type 0} (env : Env W) (libs : Libraries) (function_name : String) where
  abbrev pub IsServiceSeen : Service → Type 0
  IsServiceSeen svc = IsAnswer env (get_service functions_namespace function_name) svc

  -- The route of the Function's name, which is its own, or the one that was created.
  abbrev pub IsRouteSeen : Function → Route → Type 0
  IsRouteSeen fn route =
      (IsAnswer env
          (get_route functions_namespace
            (make_route_name function_name fn.meta.name fn.meta.namespace))
          route
        × (libs.is_controlled_by route.meta fn.meta ≡ true))
      ⊎ IsAnswer env (create_route functions_namespace (route_literal libs function_name fn)) route

  -- The same for another object with the same metadata and type.
  IsRouteSeen-framed :
      (before fn : Function) (route : Route)
      → IsFramed before fn
      → IsRouteSeen fn route
      → IsRouteSeen before route
  unfolding route_literal
  IsRouteSeen-framed before fn route framed (inl (a, own)) =
      inl (rw (sym framed.same_meta) a, rw (sym framed.same_meta) own)
  IsRouteSeen-framed before fn route framed (inr a) =
      inr (rw (sym framed.same_meta, sym framed.same_type) a)

  module _ (P : Function → Type 0) where
    answered :
        (c : Call) (s : State W Function) (x : Result (Reply c) × W)
        → env.answer c s.world ≡ x
        → P s.object
        → Post
            (λ r fn. P fn × IsAnswer env c r)
            (λ _. P)
            (from_result x.0, record s { world = x.1; calls = c ∷ s.calls })
    answered c s (ok r, w) h p = (p, (s.world, w, h))
    answered c s (err e, w) h p = p

    pub check_service-seen :
        Triple P
          (check_service env libs function_name)
          (λ svc fn. P fn × IsServiceSeen svc)
          (λ _. P)
    unfolding check_service actions
    check_service-seen = record {
      at = λ s p. answered (get_service functions_namespace function_name) s _ refl p;
    }

    created :
        (fn : Function) (o : Outcome Route) (t : State W Function)
        → Post
            (λ route f.
              P f
              × IsAnswer env
                  (create_route functions_namespace (route_literal libs function_name fn))
                  route)
            (λ _. P)
            (o, t)
        → Post (λ route f. P f × IsRouteSeen fn route) (λ _. P) (o, t)
    created fn (returned route) t (q, a) = (q, inr a)
    created fn (failed x) t q = q
    created fn panicked t q = tt

    found_route-seen :
        (fn : Function) (r : Result Route) (s : State W Function)
        → ((route : Route)
            → r ≡ ok route
            → IsAnswer env
                (get_route functions_namespace
                  (make_route_name function_name fn.meta.name fn.meta.namespace))
                route)
        → P s.object
        → Post
            (λ route o. P o × IsRouteSeen fn route)
            (λ _. P)
            (found_route env libs function_name fn r s)
    unfolding found_route make_route actions
    found_route-seen fn (ok route) s h p =
        elim (Bool-cases (libs.is_controlled_by route.meta fn.meta)) [
          | inl own ↦ simp own (p, inl (h route refl, refl))
          | inr other ↦ simp other p
        ]
    found_route-seen fn (err e) s h p = elim (Bool-cases e.not_found) [
      | inl missing ↦ simp missing (
          created fn _ _ (
            answered (create_route functions_namespace (route_literal libs function_name fn)) s _
              refl p))
      | inr other ↦ simp other p
    ]

    reframed :
        (before fn : Function) (o : Outcome Route) (t : State W Function)
        → IsFramed before fn
        → Post (λ route f. P f × IsRouteSeen fn route) (λ _. P) (o, t)
        → Post (λ route f. P f × IsRouteSeen before route) (λ _. P) (o, t)
    reframed before fn (returned route) t framed (q, a) =
        (q, IsRouteSeen-framed before fn route framed a)
    reframed before fn (failed x) t framed q = q
    reframed before fn panicked t framed q = tt

    looked_up :
        (s : State W Function) (x : Result Route × W)
        → env.answer
            (get_route functions_namespace
              (make_route_name function_name s.object.meta.name s.object.meta.namespace))
            s.world
          ≡ x
        → P s.object
        → Post
            (λ route f. P f × IsRouteSeen s.object route)
            (λ _. P)
            (found_route env libs function_name s.object x.0 (record s {
              world = x.1;
              calls =
                  get_route functions_namespace
                    (make_route_name function_name s.object.meta.name s.object.meta.namespace)
                  ∷ s.calls;
            }))
    looked_up s (r, w) h p =
        found_route-seen s.object r _ (λ route e. (s.world, w, h ∙ ap (λ z. (z, w)) e)) p

    -- The lister's answer, whichever it is, is what found_route goes on with.
    settled :
        (s : State W Function)
        → reconcile_route env libs function_name s ≡ (
            let (r, w) =
              env.answer
                (get_route functions_namespace
                  (make_route_name function_name s.object.meta.name s.object.meta.namespace))
                s.world in
            found_route env libs function_name s.object r (record s {
              world = w;
              calls =
                  get_route functions_namespace
                    (make_route_name function_name s.object.meta.name s.object.meta.namespace)
                  ∷ s.calls;
            }))
    unfolding reconcile_route actions
    settled s =
        elim (Result-cases
          (env.answer
            (get_route functions_namespace
              (make_route_name function_name s.object.meta.name s.object.meta.namespace))
            s.world).0) [ inl (r, e) ↦ rw e refl | inr (x, e) ↦ rw e refl ]

    pub reconcile_route-seen :
        (before : Function)
        → ((fn : Function) → P fn → IsFramed before fn)
        → Triple P
            (reconcile_route env libs function_name)
            (λ route fn. P fn × IsRouteSeen before route)
            (λ _. P)
    unfolding reconcile_route actions
    reconcile_route-seen before framed = record {
      at = λ s p.
          reframed before s.object _ _ (framed s.object p) (rw (settled s) (looked_up s _ refl p));
    }
