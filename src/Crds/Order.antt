-- ===== src/Crds/Order.antt =====
-- The calls of the CRD reconciler and their order.
use Prim.Native.String.{◌++◌}
use knative_functions_contro.Common.{
  String, refl, inl, inr, Option, none, some, List, [], ◌∷◌, Result, ok, err, Bool-cases,
}
use knative_functions_contro.Kube.Objects.{ConfigMap, Service, CustomResourceDefinition}
use knative_functions_contro.Kube.Api.{
  get_config_map, get_crd, get_service, create_service, update_service, Env,
}
use knative_functions_contro.Kube.Action.{State, actions}
use knative_functions_contro.Kube.Order.{
  Kind, reads_crd, reads_config_map, creates_config_map, reads_service, creates_service,
  updates_service, Made, Emits, kind, Emits-pure, Emits-fail, Emits-deref, Emits-call,
  Emits-attempt, Emits-catch, Emits-bind, Emits-quiet, Emits-one,
}
use knative_functions_contro.Kube.Libraries.{Libraries}
use knative_functions_contro.Resources.ConfigMap.{make_config_map}
use knative_functions_contro.Crds.Reconciler.{
  functions_namespace, found_config_map, reconcile_config, found_service, with_image,
  reconcile_service, unless_deleted, reconcile_crd, found_crd, reconcile_name,
}

-- The calls of Reconcile, the latest first.
abbrev pub reconcile_name_kinds : List Kind
reconcile_name_kinds =
    updates_service ∷ creates_service ∷ reads_service ∷ reads_crd ∷ creates_config_map
    ∷ reads_config_map ∷ reads_crd ∷ []

module _ {W : Type 0} (env : Env W) (libs : Libraries) where
  found_config_map-Emits :
      (ns cmname : String) (r : Result ConfigMap)
      → Emits (creates_config_map ∷ []) (found_config_map env libs ns cmname r)
  unfolding found_config_map make_config_map actions kind
  found_config_map-Emits ns cmname (ok cm) = Emits-quiet _ _ (λ s. refl)
  found_config_map-Emits ns cmname (err e) = elim (Bool-cases e.not_found) [
    | inl missing ↦ simp missing (Emits-one [] _ _ (λ s. inr (_, refl, refl)))
    | inr other ↦ simp other (Emits-quiet _ _ (λ s. refl))
  ]

  reconcile_config-Emits :
      (function_name : String)
      → Emits (creates_config_map ∷ reads_config_map ∷ []) (reconcile_config env libs function_name)
  unfolding reconcile_config kind
  reconcile_config-Emits function_name =
      Emits-bind {ks = []} {ls = creates_config_map ∷ reads_config_map ∷ []} _ _ (Emits-deref [] _)
        (λ ns.
          Emits-bind {ks = reads_config_map ∷ []} {ls = creates_config_map ∷ []} _ _
            (Emits-attempt _
              (Emits-call env (get_config_map ns ("config-function-" ++ function_name)) _ [] refl))
            (found_config_map-Emits ns _))

  found_service-Emits :
      (expected : Service) (r : Result Service)
      → Emits (updates_service ∷ creates_service ∷ []) (found_service env libs expected r)
  unfolding found_service kind
  found_service-Emits expected (ok service) =
      elim (Bool-cases (libs.spec_equal expected.spec service.spec)) [
        | inl same ↦ simp same (Emits-pure _ service)
        | inr differs ↦ simp differs (
            Emits-catch {ks = updates_service ∷ creates_service ∷ []} {ls = []} _ _
              (Emits-call env
                (update_service functions_namespace (record service { spec = expected.spec })) _ _
                refl)
              (λ e. Emits-fail [] _))
      ]
  found_service-Emits expected (err e) = elim (Bool-cases e.not_found) [
    | inl missing ↦ simp missing (
        Emits-catch {ks = creates_service ∷ []} {ls = updates_service ∷ []} _ _
          (Emits-call env (create_service functions_namespace expected) _ [] refl)
          (λ x. Emits-fail _ _))
    | inr other ↦ simp other (Emits-fail _ e)
  ]

  with_image-Emits :
      (function_name : String) (cm : ConfigMap) (o : Option String)
      → Emits
          (updates_service ∷ creates_service ∷ reads_service ∷ [])
          (with_image env libs function_name cm o)
  unfolding with_image kind
  with_image-Emits function_name cm none = Emits-fail _ _
  with_image-Emits function_name cm (some image) =
      Emits-bind {ks = reads_service ∷ []} {ls = updates_service ∷ creates_service ∷ []} _ _
        (Emits-attempt _ (Emits-call env (get_service functions_namespace function_name) _ [] refl))
        (found_service-Emits _)

  reconcile_service-Emits :
      (function_name : String) (cm : ConfigMap)
      → Emits
          (updates_service ∷ creates_service ∷ reads_service ∷ reads_crd ∷ [])
          (reconcile_service env libs function_name cm)
  unfolding reconcile_service kind
  reconcile_service-Emits function_name cm =
      Emits-bind {ks = reads_crd ∷ []} {ls = updates_service ∷ creates_service ∷ reads_service ∷ []}
        _ _
        (Emits-catch {ks = reads_crd ∷ []} {ls = []} _ _
          (Emits-call env (get_crd (function_name ++ ".functions.knative.dev")) _ [] refl)
          (λ e. Emits-fail [] _))
        (λ crd. with_image-Emits function_name cm _)

  unless_deleted-Emits :
      (crd : CustomResourceDefinition) (o : Option String)
      → Emits
          (updates_service ∷ creates_service ∷ reads_service ∷ reads_crd ∷ creates_config_map
            ∷ reads_config_map ∷ [])
          (unless_deleted env libs crd o)
  unfolding unless_deleted
  unless_deleted-Emits crd (some _) = Emits-pure _ tt
  unless_deleted-Emits crd none =
      Emits-bind {ks = creates_config_map ∷ reads_config_map ∷ []}
        {ls = updates_service ∷ creates_service ∷ reads_service ∷ reads_crd ∷ []} _ _
        (reconcile_config-Emits crd.plural)
        (λ cm.
          Emits-bind {ks = updates_service ∷ creates_service ∷ reads_service ∷ reads_crd ∷ []}
            {ls = []} _ _ (reconcile_service-Emits crd.plural cm) (λ service. Emits-pure [] tt))

  found_crd-Emits :
      (r : Result CustomResourceDefinition)
      → Emits
          (updates_service ∷ creates_service ∷ reads_service ∷ reads_crd ∷ creates_config_map
            ∷ reads_config_map ∷ [])
          (found_crd env libs r)
  unfolding found_crd reconcile_crd
  found_crd-Emits (ok crd) = unless_deleted-Emits crd crd.meta.deletion_timestamp
  found_crd-Emits (err e) = elim (Bool-cases e.not_found) [
    | inl gone ↦ simp gone (Emits-pure _ tt)
    | inr other ↦ simp other (Emits-fail _ e)
  ]

  -- However Reconcile ends, its calls are in this order, each made at most once: the definition is
  -- read; the config map is read, and created; the definition is read by the plural name of its kind;
  -- the service is read, created, and updated. So the service is not touched before the config map
  -- has been read, and no config map is ever updated.
  pub reconcile_name-order :
      (name : String) (s : State W (Unit {0}))
      → Made reconcile_name_kinds s.calls (reconcile_name env libs name s).1.calls
  unfolding reconcile_name kind
  reconcile_name-order name s =
      (Emits-bind {ks = reads_crd ∷ []}
          {ls = updates_service ∷ creates_service ∷ reads_service ∷ reads_crd ∷ creates_config_map
            ∷ reads_config_map ∷ []}
          _ _ (Emits-attempt _ (Emits-call env (get_crd name) _ [] refl)) found_crd-Emits).at
        s
