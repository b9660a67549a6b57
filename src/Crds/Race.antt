-- ===== src/Crds/Race.antt =====
-- reconcile of pkg/reconciler/crds/crds.go, which reads the config map before the service.
use Prim.Native.String.{◌++◌}
use knative_functions_contro.Common.{
  String, ◌≡◌, ◌≢◌, ap, ◌∙◌, inl, inr, true, false, Bool-cases, none, some, ◌∷◌, ok, lookup,
  lookup_nil, returned,
}
use knative_functions_contro.Kube.Objects.{
  ConfigMap, Service, ServiceSpec, CustomResourceDefinition,
}
use knative_functions_contro.Kube.Api.{get_config_map, get_crd, get_service, update_service, Env}
use knative_functions_contro.Kube.Action.{State, actions}
use knative_functions_contro.Kube.Libraries.{Libraries}
use knative_functions_contro.Duck.Types.{config_map_annotation}
use knative_functions_contro.Resources.Ksvc.{make_knative_service}
use knative_functions_contro.Crds.Reconciler.{
  functions_namespace, image_annotation, unless_deleted, reconcile_crd, reconcile_service,
}
use knative_functions_contro.Crds.Bootstrap.{reconcile_config_exists}

-- equality.Semantic.DeepEqual of specs: equal specs have the same annotations.
abbrev pub IsSemantic : Libraries → Type 0
IsSemantic libs =
    (a b : ServiceSpec)
    → libs.spec_equal a b ≡ true
    → lookup_nil config_map_annotation a.annotations
      ≡ lookup_nil config_map_annotation b.annotations

version-differs :
    (libs : Libraries) (name image v v' : String) (service : Service)
    → IsSemantic libs
    → service.spec ≡ (make_knative_service name v' image).spec
    → v ≢ v'
    → libs.spec_equal (make_knative_service name v image).spec service.spec ≡ false
unfolding make_knative_service lookup
version-differs libs name image v v' service semantic carried ne =
    elim (Bool-cases (libs.spec_equal (make_knative_service name v image).spec service.spec)) [
      | inr differs ↦ differs
      | inl equal ↦
          let same : some v ≡ some v' =
            semantic _ service.spec equal
            ∙ ap (λ spec. lookup_nil config_map_annotation spec.annotations) carried in
          absurd (ne (cc same))
    ]

module _ {W : Type 0} (env : Env W) (libs : Libraries) where
  reconcile_service_updates :
      (function_name image : String) (cm : ConfigMap) (crd : CustomResourceDefinition)
      (service service' : Service) (w1 w2 w3 : W) (s : State W (Unit {0}))
      → env.answer (get_crd (function_name ++ ".functions.knative.dev")) s.world ≡ (ok crd, w1)
      → lookup_nil image_annotation crd.meta.annotations ≡ some image
      → env.answer (get_service functions_namespace function_name) w1 ≡ (ok service, w2)
      → let expected = make_knative_service function_name cm.meta.resource_version image in
        libs.spec_equal expected.spec service.spec ≡ false
        → env.answer
            (update_service functions_namespace (record service { spec = expected.spec }))
            w2
          ≡ (ok service', w3)
        → reconcile_service env libs function_name cm s ≡ (
          returned service',
          record s {
            world = w3;
            calls =
                update_service functions_namespace (record service {
                  spec = (make_knative_service function_name cm.meta.resource_version image).spec;
                })
                ∷ get_service functions_namespace function_name
                ∷ get_crd (function_name ++ ".functions.knative.dev")
                ∷ s.calls;
          },
        )
  unfolding reconcile_service actions
  reconcile_service_updates function_name image cm crd service service' w1 w2 w3 s ha hi hs differs
        hu =
      rw (ha, hi, hs, differs, hu)

  -- The definition of a kind is not being deleted, its config map is read, and then the definition,
  -- which has an image annotation, and the service. By then the service is what a reconciler makes of
  -- it for another version of the config map, such as one that was stored in between; and
  -- semantically equal specs carry the same version. If the server accepts the update of the service,
  -- reconcile returns no error, and its last call has put the version that was read, be it the older
  -- one, back into the service.
  pub reconcile_crd-reverts :
      (def crd : CustomResourceDefinition) (ns image v' : String) (cm : ConfigMap)
      (service service' : Service) (w1 w2 w3 w4 : W) (s : State W (Unit {0}))
      → IsSemantic libs
      → def.meta.deletion_timestamp ≡ none
      → libs.system_namespace ≡ some ns
      → env.answer (get_config_map ns ("config-function-" ++ def.plural)) s.world ≡ (ok cm, w1)
      → env.answer (get_crd (def.plural ++ ".functions.knative.dev")) w1 ≡ (ok crd, w2)
      → lookup_nil image_annotation crd.meta.annotations ≡ some image
      → env.answer (get_service functions_namespace def.plural) w2 ≡ (ok service, w3)
      → service.spec ≡ (make_knative_service def.plural v' image).spec
      → cm.meta.resource_version ≢ v'
      → env.answer
          (update_service functions_namespace (record service {
            spec = (make_knative_service def.plural cm.meta.resource_version image).spec;
          }))
          w3
        ≡ (ok service', w4)
      → reconcile_crd env libs def s ≡ (
        returned tt,
        record s {
          world = w4;
          calls =
              update_service functions_namespace (record service {
                spec = (make_knative_service def.plural cm.meta.resource_version image).spec;
              })
              ∷ get_service functions_namespace def.plural
              ∷ get_crd (def.plural ++ ".functions.knative.dev")
              ∷ get_config_map ns ("config-function-" ++ def.plural)
              ∷ s.calls;
        },
      )
  unfolding reconcile_crd actions
  reconcile_crd-reverts def crd ns image v' cm service service' w1 w2 w3 w4 s semantic kept hn hc hr
        hi hs carried ne hu =
      ap (λ o. unless_deleted env libs def o s) kept
      ∙ rw (
        reconcile_config_exists env libs def.plural ns cm w1 s hn hc,
        reconcile_service_updates def.plural image cm crd service service' w2 w3 w4
            (record s {
              world = w1;
              calls = get_config_map ns ("config-function-" ++ def.plural) ∷ s.calls;
            })
            hr hi hs
            (version-differs libs def.plural image cm.meta.resource_version v' service semantic
              carried ne)
            hu,
      )
