-- ===== src/Crds/Agreement.antt =====
-- The reconcileService of pkg/reconciler/crds/crds.go and the one of
-- pkg/reconciler/functions/functions.go, on the same service.
use Prim.Native.String.{◌++◌}
use knative_functions_contro.Common.{
  String, ◌≡◌, refl, ap, ◌∙◌, inl, inr, arith, true, Bool-cases, ◌==◌, eq_iff, if◌then◌else◌, some,
  [], ◌∷◌, ok, lookup_nil, lookup, insert, returned,
}
use knative_functions_contro.Kube.Objects.{
  ConfigMap, Service, ServiceSpec, CustomResourceDefinition,
}
use knative_functions_contro.Kube.Api.{get_crd, get_service, update_service, Env}
use knative_functions_contro.Kube.Action.{State, actions}
use knative_functions_contro.Kube.Libraries.{Libraries}
use knative_functions_contro.Duck.Types.{Function, config_map_annotation}
use knative_functions_contro.Resources.Ksvc.{make_knative_service}
use knative_functions_contro.Functions.Steps.{reconcile_service, save_version, with_version}
use knative_functions_contro.Crds.Reconciler.{functions_namespace, image_annotation}
use knative_functions_contro.Crds.Reconciler as Crd
use knative_functions_contro.Crds.Services.{reconcile_service_equal}

-- The service that the Functions' reconciler has made, for another version of the config map, of the
-- one that the CRD reconciler created.
abbrev pub synced : String → String → String → String → Service
synced name image version version' =
    if version == version'
    then make_knative_service name version image
    else with_version (make_knative_service name version image) version'
        ((config_map_annotation, version) ∷ [])

synced-spec :
    (name image version version' : String)
    → (synced name image version version').spec ≡ (make_knative_service name version' image).spec
unfolding make_knative_service with_version insert
synced-spec name image version version' = elim (Bool-cases (version == version')) [
  | inl same ↦
      rw same
        (ap (λ v. (make_knative_service name v image).spec) ((eq_iff version version').0 same))
  | inr other ↦ rw other refl
]

module _ {W : Type 0} (env : Env W) (libs : Libraries) (name image : String) where
  follows :
      (version : String) (cm : ConfigMap) (s : State W Function)
      → (reconcile_service env libs name (make_knative_service name version image) cm s).1.calls ≡ (
          if version == cm.meta.resource_version
          then s.calls
          else update_service functions_namespace
              (synced name image version cm.meta.resource_version)
            ∷ s.calls)
  unfolding reconcile_service make_knative_service lookup save_version actions with_version insert
  follows version cm s = ground arith

  -- The semantic equality is reflexive. The CRD reconciler has created the service for one version of
  -- the config map, and the Functions' reconciler finds it with a config map of any version. Then the
  -- Functions' reconciler makes one update if the versions differ, and no call if they are the same;
  -- and a CRD reconciler that has the same config map, and finds the service as the Functions'
  -- reconciler left it, makes its two reads and writes nothing.
  pub reconcile_service-agrees :
      (version : String) (cm : ConfigMap) (crd : CustomResourceDefinition) (w1 w2 : W)
      (s : State W Function) (t : State W (Unit {0}))
      → ((spec : ServiceSpec) → libs.spec_equal spec spec ≡ true)
      → env.answer (get_crd (name ++ ".functions.knative.dev")) t.world ≡ (ok crd, w1)
      → lookup_nil image_annotation crd.meta.annotations ≡ some image
      → env.answer (get_service functions_namespace name) w1
        ≡ (ok (synced name image version cm.meta.resource_version), w2)
      → ((reconcile_service env libs name (make_knative_service name version image) cm s).1.calls
          ≡ (if version == cm.meta.resource_version
              then s.calls
              else update_service functions_namespace
                  (synced name image version cm.meta.resource_version)
                ∷ s.calls))
        × (Crd.reconcile_service env libs name cm t ≡ (
          returned (synced name image version cm.meta.resource_version),
          record t {
            world = w2;
            calls =
                get_service functions_namespace name
                ∷ get_crd (name ++ ".functions.knative.dev")
                ∷ t.calls;
          },
        ))
  reconcile_service-agrees version cm crd w1 w2 s t reflexive ha hi hs = (
    follows version cm s,
    reconcile_service_equal env libs name image cm crd _ w1 w2 t ha hi hs (
        ap (libs.spec_equal (make_knative_service name cm.meta.resource_version image).spec)
          (synced-spec name image version cm.meta.resource_version)
        ∙ reflexive (make_knative_service name cm.meta.resource_version image).spec),
  )
