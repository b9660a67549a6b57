-- ===== src/Crds/Provided.antt =====
-- What a reconcile of a definition has done when it reports no error: pkg/reconciler/crds/crds.go.
use mathlib.Core.Path.{subst, subst⁻¹}
use Prim.Native.String.{◌++◌}
use knative_functions_contro.Common.{
  String, ◌≡◌, refl, sym, ap, ◌∙◌, ◌⊎◌, inl, inr, true, false, Option, none, some, Error, Result,
  ok, err, lookup_nil, returned, failed, from_result,
}
use knative_functions_contro.Kube.Objects.{ConfigMap, Service, CustomResourceDefinition}
use knative_functions_contro.Kube.Api.{
  Call, Reply, Env, get_config_map, create_config_map, get_crd, get_service, create_service,
  update_service,
}
use knative_functions_contro.Kube.Action.{State, call, actions}
use knative_functions_contro.Kube.Inversion.{
  Ends, Returns, bind-inv, catch-inv, attempt-inv, if-inv, deref-inv, pure-inv, fail-inv,
}
use knative_functions_contro.Kube.Libraries.{Libraries}
use knative_functions_contro.Resources.ConfigMap.{make_config_map}
use knative_functions_contro.Resources.Ksvc.{make_knative_service}
use knative_functions_contro.Crds.Reconciler.{
  functions_namespace, image_annotation, found_config_map, reconcile_config, found_service,
  with_image, reconcile_service, unless_deleted, reconcile_crd,
}
use knative_functions_contro.Crds.Bootstrap.{first_config_map}

module _ {W : Type 0} (env : Env W) (libs : Libraries) where
  -- From one state to the next, the call was made and the environment has answered with the value.
  abbrev pub IsGiven : State W (Unit {0}) → (c : Call) → Reply c → State W (Unit {0}) → Type 0
  IsGiven s c r t = Returns (call env c) s r t

  -- The call was made, and there is no such object.
  abbrev pub IsMissing : State W (Unit {0}) → Call → State W (Unit {0}) → Type 0
  IsMissing s c t = (e : Error) × Ends (call env c s) (failed e) t × (e.not_found ≡ true)

  -- The config map of the function: the one that is there, or else the one that was created.
  abbrev pub IsConfigured :
      String → String → State W (Unit {0}) → ConfigMap → State W (Unit {0}) → Type 0
  IsConfigured ns name s cm t =
      IsGiven s (get_config_map ns name) cm t
      ⊎ ((u : State W (Unit {0})) × IsMissing s (get_config_map ns name) u
          × IsGiven u (create_config_map ns (first_config_map ns name)) cm t)

  -- The service: it is there with the wanted spec, or it was updated to have it, or it was created.
  abbrev pub IsServed :
      Service → String → State W (Unit {0}) → Service → State W (Unit {0}) → Type 0
  IsServed expected name s service t =
      (IsGiven s (get_service functions_namespace name) service t
        × (libs.spec_equal expected.spec service.spec ≡ true))
      ⊎ (((old : Service) × (u : State W (Unit {0})) × IsGiven s
              (get_service functions_namespace name) old u
            × (libs.spec_equal expected.spec old.spec ≡ false)
            × IsGiven u (update_service functions_namespace (record old { spec = expected.spec }))
                service t)
          ⊎ ((u : State W (Unit {0})) × IsMissing s (get_service functions_namespace name) u
              × IsGiven u (create_service functions_namespace expected) service t))

  found_config_map-inv :
      (ns name : String) (r : Result ConfigMap) (s u : State W (Unit {0})) (cm : ConfigMap)
      (t : State W (Unit {0}))
      → Ends (call env (get_config_map ns name) s) (from_result r) u
      → Returns (found_config_map env libs ns name r) u cm t
      → IsConfigured ns name s cm t
  unfolding found_config_map make_config_map
  found_config_map-inv ns name (ok found) s u cm t got h =
      let (same, still) = pure-inv found u cm t h in inl (cc (got, same, still))
  found_config_map-inv ns name (err e) s u cm t got h = elim (if-inv _ e.not_found _ u cm t h) [
    | inl (missing, made) ↦ inr (u, (e, got, missing), unfold actions in made)
    | inr (_, refused) ↦ absurd (fail-inv e u cm t refused)
  ]

  pub reconcile_config-inv :
      (function_name : String) (s : State W (Unit {0})) (cm : ConfigMap) (t : State W (Unit {0}))
      → Returns (reconcile_config env libs function_name) s cm t
      → (ns : String) × (libs.system_namespace ≡ some ns)
        × IsConfigured ns ("config-function-" ++ function_name) s cm t
  unfolding reconcile_config
  reconcile_config-inv function_name s cm t h =
      let (ns, s1, named, h1) = bind-inv _ _ s cm t h in
      let (is_set, same) = deref-inv libs.system_namespace s ns s1 named in
      let (found, u, got, rest) = bind-inv _ _ s1 cm t h1 in
      (
        ns,
        is_set,
        subst⁻¹ (λ v. IsConfigured ns ("config-function-" ++ function_name) v cm t) same
            (found_config_map-inv ns ("config-function-" ++ function_name) found s1 u cm t
              (attempt-inv _ s1 found u got) rest),
      )

  found_service-inv :
      (expected : Service) (name : String) (r : Result Service) (s u : State W (Unit {0}))
      (service : Service) (t : State W (Unit {0}))
      → Ends (call env (get_service functions_namespace name) s) (from_result r) u
      → Returns (found_service env libs expected r) u service t
      → IsServed expected name s service t
  unfolding found_service
  found_service-inv expected name (ok old) s u service t got h =
      elim (if-inv _ (libs.spec_equal expected.spec old.spec) _ u service t h) [
        | inl (equal, it) ↦
            let (same, still) = pure-inv old u service t it in
            inl (
              cc (got, same, still),
              sym (ap (λ x. libs.spec_equal expected.spec x.spec) same) ∙ equal,
            )
        | inr (differs, it) ↦ inr (inl (old, u, got, differs, catch-inv _ _ u service t it))
      ]
  found_service-inv expected name (err e) s u service t got h =
      elim (if-inv _ e.not_found _ u service t h) [
        | inl (missing, made) ↦ inr (inr (u, (e, got, missing), catch-inv _ _ u service t made))
        | inr (_, refused) ↦ absurd (fail-inv e u service t refused)
      ]

  with_image-inv :
      (function_name : String) (cm : ConfigMap) (o : Option String) (s : State W (Unit {0}))
      (service : Service) (t : State W (Unit {0}))
      → Returns (with_image env libs function_name cm o) s service t
      → (image : String) × (o ≡ some image)
        × IsServed
            (make_knative_service function_name cm.meta.resource_version image)
            function_name
            s
            service
            t
  unfolding with_image
  with_image-inv function_name cm none s service t h = absurd (fail-inv _ s service t h)
  with_image-inv function_name cm (some image) s service t h =
      let (found, u, got, rest) = bind-inv _ _ s service t h in
      (
        image,
        refl,
        found_service-inv _ function_name found s u service t (attempt-inv _ s found u got) rest,
      )

  abbrev pub IsProvided :
      CustomResourceDefinition → State W (Unit {0}) → State W (Unit {0}) → Type 0
  IsProvided def s s' =
      (ns : String) × (cm : ConfigMap) × (crd : CustomResourceDefinition) × (image : String)
      × (service : Service) × (t : State W (Unit {0})) × (u : State W (Unit {0}))
      × (libs.system_namespace ≡ some ns)
      × IsConfigured ns ("config-function-" ++ def.plural) s cm t
      × IsGiven t (get_crd (def.plural ++ ".functions.knative.dev")) crd u
      × (lookup_nil image_annotation crd.meta.annotations ≡ some image)
      × IsServed (make_knative_service def.plural cm.meta.resource_version image) def.plural u
          service s'

  -- The definition of a kind is not being deleted, and reconcile reports no error for it. Then these
  -- have happened, one after the other, and nothing else: the config map of the function was read
  -- from the system's namespace, or it was missing and was created with the empty configuration; the
  -- definition was read by its plural name, and has an image annotation; and of the service that runs
  -- this image with this version of the config map, either one with that spec was read, or the one
  -- that was read had another and was updated to it, or it was missing and was created.
  pub reconcile_crd-provides :
      (def : CustomResourceDefinition) (s s' : State W (Unit {0}))
      → def.meta.deletion_timestamp ≡ none
      → reconcile_crd env libs def s ≡ (returned tt, s')
      → IsProvided def s s'
  unfolding reconcile_crd reconcile_service
  reconcile_crd-provides def s s' kept h =
      let h0 : Returns (unless_deleted env libs def none) s tt s' =
        sym (ap (λ o. unless_deleted env libs def o s) kept) ∙ h in
      let (cm, t, configured, h1) = bind-inv _ _ s tt s' (unfold unless_deleted in h0) in
      let (ns, is_set, config) = reconcile_config-inv def.plural s cm t configured in
      let (service, v, served, h2) = bind-inv _ _ t tt s' h1 in
      let (_, still) = pure-inv tt v tt s' h2 in
      let (crd, u, got, h3) = bind-inv _ _ t service v served in
      let (image, annotated, running) = with_image-inv def.plural cm _ u service v h3 in
      (
        ns,
        cm,
        crd,
        image,
        service,
        t,
        u,
        is_set,
        config,
        catch-inv _ _ t crd u got,
        annotated,
        subst
            (IsServed (make_knative_service def.plural cm.meta.resource_version image) def.plural u
              service)
            still running,
      )
