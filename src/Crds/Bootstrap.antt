-- ===== src/Crds/Bootstrap.antt =====
-- reconcile of pkg/reconciler/crds/crds.go on a cluster that holds nothing yet of a kind of Functions.
use Prim.Native.String.{◌++◌}
use knative_functions_contro.Common.{
  String, ◌≡◌, ap, ◌∙◌, true, none, some, [], ◌∷◌, Error, ok, err, lookup_nil, returned,
}
use knative_functions_contro.Kube.Objects.{ConfigMap, Service, CustomResourceDefinition, empty_meta}
use knative_functions_contro.Kube.Api.{
  get_config_map, create_config_map, get_crd, get_service, create_service, Env,
}
use knative_functions_contro.Kube.Action.{State, actions}
use knative_functions_contro.Kube.Libraries.{Libraries}
use knative_functions_contro.Resources.ConfigMap.{make_config_map, config_key}
use knative_functions_contro.Resources.Ksvc.{make_knative_service}
use knative_functions_contro.Crds.Reconciler.{
  functions_namespace, image_annotation, reconcile_config, unless_deleted, reconcile_crd,
}
use knative_functions_contro.Crds.Services.{reconcile_service-creates}

-- The config map that is created: the configuration is the empty object.
abbrev pub first_config_map : String → String → ConfigMap
first_config_map ns name = record {
  type_meta = record { api_version = "v1"; kind = "ConfigMap" };
  meta = record empty_meta { name = name; namespace = ns };
  contents = some ((config_key, "{}") ∷ []);
}

module _ {W : Type 0} (env : Env W) (libs : Libraries) where
  -- A config map that exists is returned as it is, with no write.
  pub reconcile_config_exists :
      (function_name ns : String) (cm : ConfigMap) (w : W) (s : State W (Unit {0}))
      → libs.system_namespace ≡ some ns
      → env.answer (get_config_map ns ("config-function-" ++ function_name)) s.world ≡ (ok cm, w)
      → reconcile_config env libs function_name s ≡ (
        returned cm,
        record s {
          world = w;
          calls = get_config_map ns ("config-function-" ++ function_name) ∷ s.calls;
        },
      )
  unfolding reconcile_config actions
  reconcile_config_exists function_name ns cm w s hn ha = rw (hn, ha)

  pub reconcile_config_creates :
      (function_name ns : String) (cm : ConfigMap) (e : Error) (w1 w2 : W) (s : State W (Unit {0}))
      → libs.system_namespace ≡ some ns
      → env.answer (get_config_map ns ("config-function-" ++ function_name)) s.world ≡ (err e, w1)
      → e.not_found ≡ true
      → env.answer
          (create_config_map ns (first_config_map ns ("config-function-" ++ function_name)))
          w1
        ≡ (ok cm, w2)
      → reconcile_config env libs function_name s ≡ (
        returned cm,
        record s {
          world = w2;
          calls =
              create_config_map ns (first_config_map ns ("config-function-" ++ function_name))
              ∷ get_config_map ns ("config-function-" ++ function_name)
              ∷ s.calls;
        },
      )
  unfolding reconcile_config make_config_map actions
  reconcile_config_creates function_name ns cm e w1 w2 s hn ha missing hc = rw (hn, ha, missing, hc)

  -- The definition of a kind is not being deleted, the definition read by its plural name has an
  -- image annotation, and neither the kind's config map nor its service is found. If the server
  -- accepts both, reconcile returns no error and has created exactly these: in the system's
  -- namespace the config map with the empty configuration, and then the service that runs the
  -- image, with the version that the server gave to the config map.
  pub reconcile_crd_bootstraps :
      (def crd : CustomResourceDefinition) (ns image : String) (cm : ConfigMap) (service : Service)
      (e x : Error) (w1 w2 w3 w4 w5 : W) (s : State W (Unit {0}))
      → def.meta.deletion_timestamp ≡ none
      → libs.system_namespace ≡ some ns
      → env.answer (get_config_map ns ("config-function-" ++ def.plural)) s.world ≡ (err e, w1)
      → e.not_found ≡ true
      → env.answer
          (create_config_map ns (first_config_map ns ("config-function-" ++ def.plural)))
          w1
        ≡ (ok cm, w2)
      → env.answer (get_crd (def.plural ++ ".functions.knative.dev")) w2 ≡ (ok crd, w3)
      → lookup_nil image_annotation crd.meta.annotations ≡ some image
      → env.answer (get_service functions_namespace def.plural) w3 ≡ (err x, w4)
      → x.not_found ≡ true
      → env.answer
          (create_service functions_namespace
            (make_knative_service def.plural cm.meta.resource_version image))
          w4
        ≡ (ok service, w5)
      → reconcile_crd env libs def s ≡ (
        returned tt,
        record s {
          world = w5;
          calls =
              create_service functions_namespace
                (make_knative_service def.plural cm.meta.resource_version image)
              ∷ get_service functions_namespace def.plural
              ∷ get_crd (def.plural ++ ".functions.knative.dev")
              ∷ create_config_map ns (first_config_map ns ("config-function-" ++ def.plural))
              ∷ get_config_map ns ("config-function-" ++ def.plural)
              ∷ s.calls;
        },
      )
  unfolding reconcile_crd actions
  reconcile_crd_bootstraps def crd ns image cm service e x w1 w2 w3 w4 w5 s hd hn ha he hc hr hi hs
        hx hw =
      ap (λ o. unless_deleted env libs def o s) hd
      ∙ rw (
        reconcile_config_creates def.plural ns cm e w1 w2 s hn ha he hc,
        reconcile_service-creates env libs def.plural image cm crd x (ok service) w3 w4 w5
            (record s {
              world = w2;
              calls =
                  create_config_map ns (first_config_map ns ("config-function-" ++ def.plural))
                  ∷ get_config_map ns ("config-function-" ++ def.plural)
                  ∷ s.calls;
            })
            hr hi hs hx hw,
      )
