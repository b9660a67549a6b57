-- ===== src/Functions/Causes.antt =====
-- Why a step of reconcile of pkg/reconciler/functions/functions.go fails.
use Prim.Native.String.{◌++◌}
use knative_functions_contro.Common.{
  String, ◌≡◌, ◌==◌, refl, ap, ◌∙◌, ◌⊎◌, inl, inr, false, none, some, Option, Error, Result, ok,
  err, Dict, quote, from_result,
}
use knative_functions_contro.Kube.Objects.{ConfigMap, Route, Service}
use knative_functions_contro.Kube.Api.{
  Call, Env, create_route, get_route, get_service, update_service,
}
use knative_functions_contro.Kube.Action.{State, attempt, pure, call, ◌>>=◌, actions}
use knative_functions_contro.Kube.Inversion.{Ends, IsAnswer, attempt-inv, call-inv}
use knative_functions_contro.Kube.Failures.{
  FailsWith, bind-fails, attempt-fails, if-fails, pure-fails, fail-fails, call-fails, IsRefusal,
}
use knative_functions_contro.Kube.Libraries.{Libraries}
use knative_functions_contro.Duck.Types.{Function}
use knative_functions_contro.Resources.Route.{make_route, make_route_name, route_literal}
use knative_functions_contro.Functions.ServiceSync.{template_version}
use knative_functions_contro.Functions.Steps.{
  error, check_service, found_route, functions_namespace, reconcile_route, reconcile_service,
  save_version, with_version,
}

module _ {W : Type 0} (env : Env W) (libs : Libraries) (function_name : String) where
  -- The route's read is refused, but not since it is missing; or its creation is; or it is another's.
  abbrev pub IsRouteless : Function → Error → Type 0
  IsRouteless fn x =
      (IsRefusal env
          (get_route functions_namespace
            (make_route_name function_name fn.meta.name fn.meta.namespace))
          x
        × (x.not_found ≡ false))
      ⊎ (IsRefusal env (create_route functions_namespace (route_literal libs function_name fn)) x
          ⊎ ((route : Route) × IsAnswer env
                (get_route functions_namespace
                  (make_route_name function_name fn.meta.name fn.meta.namespace))
                route
              × (libs.is_controlled_by route.meta fn.meta ≡ false)
              × (x
                  ≡ error (
                      "Function: "
                      ++ fn.meta.namespace
                      ++ "/"
                      ++ fn.meta.name
                      ++ " does not own Route: "
                      ++ quote route.meta.name))))

  pub check_service-fails :
      (s : State W Function) (x : Error) (t : State W Function)
      → FailsWith (check_service env libs function_name) s x t
      → IsRefusal env (get_service functions_namespace function_name) x
  unfolding check_service
  check_service-fails s x t h =
      call-fails env (get_service functions_namespace function_name) s x t h

  abbrev reads_route : Function → Call
  reads_route fn =
      get_route functions_namespace (make_route_name function_name fn.meta.name fn.meta.namespace)

  found_route-fails :
      (fn : Function) (r : Result Route) (s u : State W Function) (x : Error) (t : State W Function)
      → Ends (call env (reads_route fn) s) (from_result r) u
      → FailsWith (found_route env libs function_name fn r) u x t
      → IsRouteless fn x
  unfolding found_route make_route
  found_route-fails fn (ok route) s u x t got h =
      elim (if-fails _ (libs.is_controlled_by route.meta fn.meta) _ u x t h) [
        | inl (own, kept) ↦ absurd (pure-fails route u x t kept)
        | inr (other, refused) ↦ inr (
            inr (
              route,
              call-inv env (reads_route fn) s route u got,
              other,
              (fail-fails _ u x t refused).0,
            ))
      ]
  found_route-fails fn (err e) s u x t got h = elim (if-fails _ e.not_found _ u x t h) [
    | inl (missing, made) ↦ inr (
        inl (
          call-fails env (create_route functions_namespace (route_literal libs function_name fn)) u
            x t (unfold actions in made)))
    | inr (other, refused) ↦
        let (same, still) = fail-fails e u x t refused in
        inl (
          call-fails env (reads_route fn) s x u (cc (got, same)),
          ap (λ y. y.not_found) same ∙ other,
        )
  ]

  pub reconcile_route-fails :
      (s : State W Function) (x : Error) (t : State W Function)
      → FailsWith (reconcile_route env libs function_name) s x t
      → IsRouteless s.object x
  unfolding reconcile_route
  reconcile_route-fails s x t h =
      let h' : FailsWith
          (attempt (call env (reads_route s.object))
            >>= found_route env libs function_name s.object)
          s x t =
        unfold actions in h in
      elim (bind-fails _ _ s x t h') [
        | inl read ↦ absurd (attempt-fails _ s x t read)
        | inr (found, u, got, rest) ↦
            found_route-fails s.object found s u x t (attempt-inv _ s found u got) rest
      ]

  save_version-fails :
      (svc : Service) (version : String) (o : Option (Dict String)) (s : State W Function)
      (x : Error) (t : State W Function)
      → FailsWith (save_version env libs function_name svc version o) s x t
      → (m : Dict String) × (o ≡ some m)
        × IsRefusal env (update_service svc.meta.namespace (with_version svc version m)) x
  unfolding save_version
  save_version-fails svc version none s x t h = unfold actions in cc h
  save_version-fails svc version (some m) s x t h = (
    m,
    refl,
    call-fails env (update_service svc.meta.namespace (with_version svc version m)) s x t h,
  )

  -- The update of the service is refused.
  pub reconcile_service-fails :
      (svc : Service) (cm : ConfigMap) (s : State W Function) (x : Error) (t : State W Function)
      → FailsWith (reconcile_service env libs function_name svc cm) s x t
      → (m : Dict String) × (svc.spec.annotations ≡ some m)
        × IsRefusal env
            (update_service svc.meta.namespace (with_version svc cm.meta.resource_version m))
            x
  unfolding reconcile_service
  reconcile_service-fails svc cm s x t h =
      elim (if-fails (pure svc) (template_version svc == cm.meta.resource_version) _ s x t h) [
        | inl (same, kept) ↦ absurd (pure-fails svc s x t kept)
        | inr (differs, it) ↦
            save_version-fails svc cm.meta.resource_version svc.spec.annotations s x t it
      ]
