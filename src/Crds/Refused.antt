-- ===== src/Crds/Refused.antt =====
-- How a reconcile of a definition fails: every error of pkg/reconciler/crds/crds.go.
use Prim.Native.String.{◌++◌}
use knative_functions_contro.Common.{
  String, ◌≡◌, ap, ◌∙◌, ◌⊎◌, inl, inr, false, Option, none, some, Error, Result, ok, err, failed,
  from_result,
}
use knative_functions_contro.Kube.Objects.{ConfigMap, Service}
use knative_functions_contro.Kube.Api.{
  Call, Env, get_config_map, create_config_map, get_service, create_service, update_service,
}
use knative_functions_contro.Kube.Action.{State, call, actions}
use knative_functions_contro.Kube.Inversion.{Ends, attempt-inv}
use knative_functions_contro.Kube.Failures.{
  FailsWith, bind-fails, catch-fails, attempt-fails, if-fails, pure-fails, fail-fails,
}
use knative_functions_contro.Kube.Libraries.{Libraries}
use knative_functions_contro.Resources.ConfigMap.{make_config_map}
use knative_functions_contro.Resources.Ksvc.{make_knative_service}
use knative_functions_contro.Crds.Reconciler.{
  error, functions_namespace, found_config_map, found_service, with_image,
}
use knative_functions_contro.Crds.Bootstrap.{first_config_map}
use knative_functions_contro.Crds.Provided.{IsGiven, IsMissing}

module _ {W : Type 0} (env : Env W) (libs : Libraries) where
  -- The call was made and refused, with an error that does not say that there is no such object.
  abbrev pub IsBroken : State W (Unit {0}) → Call → Error → State W (Unit {0}) → Type 0
  IsBroken s c x t = Ends (call env c s) (failed x) t × (x.not_found ≡ false)

  -- The call was made and refused, and the error's text goes behind the other.
  abbrev pub IsWrapped : State W (Unit {0}) → Call → String → Error → State W (Unit {0}) → Type 0
  IsWrapped s c text x t =
      (e : Error) × Ends (call env c s) (failed e) t × (x ≡ error (text ++ e.message))

  -- No config map: it cannot be read, or it is missing and cannot be created.
  abbrev pub IsUnconfigured :
      String → String → State W (Unit {0}) → Error → State W (Unit {0}) → Type 0
  IsUnconfigured ns name s x t =
      IsBroken s (get_config_map ns name) x t
      ⊎ ((u : State W (Unit {0})) × IsMissing env libs s (get_config_map ns name) u
          × Ends (call env (create_config_map ns (first_config_map ns name)) u) (failed x) t)

  -- No service: it cannot be read; it has another spec and cannot be updated; or it is missing and
  -- cannot be created.
  abbrev pub IsUnserved :
      Service → String → State W (Unit {0}) → Error → State W (Unit {0}) → Type 0
  IsUnserved expected name s x t =
      IsBroken s (get_service functions_namespace name) x t
      ⊎ (((old : Service) × (u : State W (Unit {0})) × IsGiven env libs s
              (get_service functions_namespace name) old u
            × (libs.spec_equal expected.spec old.spec ≡ false)
            × IsWrapped u (update_service functions_namespace (record old { spec = expected.spec }))
                "Failed to update the function service: " x t)
          ⊎ ((u : State W (Unit {0})) × IsMissing env libs s (get_service functions_namespace name)
                u
              × IsWrapped u (create_service functions_namespace expected)
                  "Failed to create the function service: " x t))

  pub found_config_map-fails :
      (ns name : String) (r : Result ConfigMap) (s u : State W (Unit {0})) (x : Error)
      (t : State W (Unit {0}))
      → Ends (call env (get_config_map ns name) s) (from_result r) u
      → FailsWith (found_config_map env libs ns name r) u x t
      → IsUnconfigured ns name s x t
  unfolding found_config_map make_config_map
  found_config_map-fails ns name (ok found) s u x t got h = absurd (pure-fails found u x t h)
  found_config_map-fails ns name (err e) s u x t got h = elim (if-fails _ e.not_found _ u x t h) [
    | inl (missing, made) ↦ inr (u, (e, got, missing), unfold actions in made)
    | inr (other, refused) ↦
        let (same, still) = fail-fails e u x t refused in
        inl (cc (got, same, still), ap (λ y. y.not_found) same ∙ other)
  ]

  found_service-fails :
      (expected : Service) (name : String) (r : Result Service) (s u : State W (Unit {0}))
      (x : Error) (t : State W (Unit {0}))
      → Ends (call env (get_service functions_namespace name) s) (from_result r) u
      → FailsWith (found_service env libs expected r) u x t
      → IsUnserved expected name s x t
  unfolding found_service
  found_service-fails expected name (ok old) s u x t got h =
      elim (if-fails _ (libs.spec_equal expected.spec old.spec) _ u x t h) [
        | inl (equal, kept) ↦ absurd (pure-fails old u x t kept)
        | inr (differs, it) ↦ inr (inl (old, u, got, differs, catch-fails _ _ u x t it))
      ]
  found_service-fails expected name (err e) s u x t got h =
      elim (if-fails _ e.not_found _ u x t h) [
        | inl (missing, made) ↦ inr (inr (u, (e, got, missing), catch-fails _ _ u x t made))
        | inr (other, refused) ↦
            let (same, still) = fail-fails e u x t refused in
            inl (cc (got, same, still), ap (λ y. y.not_found) same ∙ other)
      ]

  pub with_image-fails :
      (function_name : String) (cm : ConfigMap) (o : Option String) (s : State W (Unit {0}))
      (x : Error) (t : State W (Unit {0}))
      → FailsWith (with_image env libs function_name cm o) s x t
      → ((o ≡ none)
          × (x ≡ error "Missing functions.knative.dev/image annotation on function CRD")
          × (s ≡ t))
        ⊎ ((image : String) × (o ≡ some image)
            × IsUnserved
                (make_knative_service function_name cm.meta.resource_version image)
                function_name
                s
                x
                t)
  unfolding with_image
  with_image-fails function_name cm none s x t h =
      let (same, still) = fail-fails _ s x t h in inl (cc, same, still)
  with_image-fails function_name cm (some image) s x t h = elim (bind-fails _ _ s x t h) [
    | inl read ↦ absurd (attempt-fails _ s x t read)
    | inr (found, u, got, rest) ↦ inr (
      image,
      cc,
      found_service-fails _ function_name found s u x t (attempt-inv _ s found u got) rest,
    )
  ]
