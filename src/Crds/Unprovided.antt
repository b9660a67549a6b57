-- ===== src/Crds/Unprovided.antt =====
-- Why a definition that is not being deleted does not get what it needs: pkg/reconciler/crds/crds.go.
use mathlib.Core.Path.{subst}
use Prim.Native.String.{◌++◌}
use knative_functions_contro.Common.{String, ◌≡◌, ◌⊎◌, inl, inr, none, some, Error, lookup_nil}
use knative_functions_contro.Kube.Objects.{ConfigMap, CustomResourceDefinition}
use knative_functions_contro.Kube.Api.{Env, get_crd}
use knative_functions_contro.Kube.Action.{State}
use knative_functions_contro.Kube.Inversion.{Returns, attempt-inv, catch-inv, deref-inv}
use knative_functions_contro.Kube.Failures.{
  FailsWith, bind-fails, catch-fails, attempt-fails, deref-fails, pure-fails,
}
use knative_functions_contro.Kube.Libraries.{Libraries}
use knative_functions_contro.Resources.Ksvc.{make_knative_service}
use knative_functions_contro.Crds.Reconciler.{
  error, image_annotation, reconcile_config, reconcile_service, unless_deleted,
}
use knative_functions_contro.Crds.Provided.{IsGiven, IsConfigured, reconcile_config-inv}
use knative_functions_contro.Crds.Refused.{
  IsWrapped, IsUnconfigured, IsUnserved, found_config_map-fails, with_image-fails,
}

module _ {W : Type 0} (env : Env W) (libs : Libraries) where
  -- Why there is no service for the config map: the definition cannot be read by its plural name, or it
  -- has no image annotation, or the service is not there.
  abbrev pub IsUnprovided :
      String → ConfigMap → State W (Unit {0}) → Error → State W (Unit {0}) → Type 0
  IsUnprovided name cm s x t =
      IsWrapped env libs s (get_crd (name ++ ".functions.knative.dev"))
        "Failed to get function Custom Resource Definition: " x t
      ⊎ ((crd : CustomResourceDefinition) × (u : State W (Unit {0})) × IsGiven env libs s
            (get_crd (name ++ ".functions.knative.dev")) crd u
          × (((lookup_nil image_annotation crd.meta.annotations ≡ none)
                × (x ≡ error "Missing functions.knative.dev/image annotation on function CRD")
                × (u ≡ t))
              ⊎ ((image : String) × (lookup_nil image_annotation crd.meta.annotations ≡ some image)
                  × IsUnserved env libs (make_knative_service name cm.meta.resource_version image)
                      name u x t)))

  -- Why a definition that is not being deleted has not got what it needs: no config map, or no service.
  abbrev pub IsRefused :
      String → CustomResourceDefinition → State W (Unit {0}) → Error → State W (Unit {0}) → Type 0
  IsRefused ns def s x t =
      IsUnconfigured env libs ns ("config-function-" ++ def.plural) s x t
      ⊎ ((cm : ConfigMap) × (u : State W (Unit {0})) × IsConfigured env libs ns
            ("config-function-" ++ def.plural) s cm u
          × IsUnprovided def.plural cm u x t)

module _ {W : Type 0} (env : Env W) (libs : Libraries) (ns : String)
    (is_set : libs.system_namespace ≡ some ns) where
  same_namespace : (ns' : String) → libs.system_namespace ≡ some ns' → ns' ≡ ns
  same_namespace ns' is_set' = cc (is_set, is_set')

  reconcile_config-fails :
      (function_name : String) (s : State W (Unit {0})) (x : Error) (t : State W (Unit {0}))
      → FailsWith (reconcile_config env libs function_name) s x t
      → IsUnconfigured env libs ns ("config-function-" ++ function_name) s x t
  unfolding reconcile_config
  reconcile_config-fails function_name s x t h = elim (bind-fails _ _ s x t h) [
    | inl unset ↦ absurd (deref-fails libs.system_namespace s x t unset)
    | inr (ns', s1, named, h1) ↦
        let (is_set', same) = deref-inv libs.system_namespace s ns' s1 named in
        elim (bind-fails _ _ s1 x t h1) [
          | inl read ↦ absurd (attempt-fails _ s1 x t read)
          | inr (found, u, got, rest) ↦
              subst (λ n. IsUnconfigured env libs n ("config-function-" ++ function_name) s x t)
                (same_namespace ns' is_set')
                (found_config_map-fails env libs ns' ("config-function-" ++ function_name) found s u
                  x t (rw same (attempt-inv _ s1 found u got)) rest)
        ]
  ]

  reconcile_config-gives :
      (function_name : String) (s : State W (Unit {0})) (cm : ConfigMap) (t : State W (Unit {0}))
      → Returns (reconcile_config env libs function_name) s cm t
      → IsConfigured env libs ns ("config-function-" ++ function_name) s cm t
  reconcile_config-gives function_name s cm t h =
      let (ns', is_set', it) = reconcile_config-inv env libs function_name s cm t h in
      subst (λ n. IsConfigured env libs n ("config-function-" ++ function_name) s cm t)
        (same_namespace ns' is_set') it

  reconcile_service-fails :
      (function_name : String) (cm : ConfigMap) (s : State W (Unit {0})) (x : Error)
      (t : State W (Unit {0}))
      → FailsWith (reconcile_service env libs function_name cm) s x t
      → IsUnprovided env libs function_name cm s x t
  unfolding reconcile_service
  reconcile_service-fails function_name cm s x t h = elim (bind-fails _ _ s x t h) [
    | inl unread ↦ inl (catch-fails _ _ s x t unread)
    | inr (crd, u, got, rest) ↦
        inr (
          crd,
          u,
          catch-inv _ _ s crd u got,
          with_image-fails env libs function_name cm _ u x t rest,
        )
  ]

  pub reconcile_crd-fails :
      (def : CustomResourceDefinition) (s : State W (Unit {0})) (x : Error) (t : State W (Unit {0}))
      → FailsWith (unless_deleted env libs def none) s x t
      → IsRefused env libs ns def s x t
  unfolding unless_deleted
  reconcile_crd-fails def s x t h = elim (bind-fails _ _ s x t h) [
    | inl refused ↦ inl (reconcile_config-fails def.plural s x t refused)
    | inr (cm, u, configured, h1) ↦ inr (
      cm,
      u,
      reconcile_config-gives def.plural s cm u configured,
      elim (bind-fails _ _ u x t h1) [
        | inl unserved ↦ reconcile_service-fails def.plural cm u x t unserved
        | inr (service, v, served, h2) ↦ absurd (pure-fails tt v x t h2)
      ],
    )
  ]
