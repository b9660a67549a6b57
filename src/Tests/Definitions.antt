-- ===== src/Tests/Definitions.antt =====
-- The theorems on the CRD reconciler, on the clusters of the tests.
use Prim.Native.String.{◌++◌}
use mathlib.Core.Bool.{false, false≢true}
use knative_functions_contro.Common.{
  eq_iff, String, ◌≡◌, ◌⊎◌, Error, failed, refl, some, [], ◌∷◌, lookup, lookup_nil, returned,
}
use knative_functions_contro.Kube.Objects.{Service}
use knative_functions_contro.Kube.Api.{
  create_config_map, get_config_map, get_crd, create_service, get_service, update_service,
}
use knative_functions_contro.Kube.Action.{State, actions}
use knative_functions_contro.Kube.Order.{Made}
use knative_functions_contro.Duck.Types.{config_map_annotation}
use knative_functions_contro.Resources.Ksvc.{make_knative_service}
use knative_functions_contro.Crds.Reconciler.{reconcile_service, reconcile_crd, reconcile_name}
use knative_functions_contro.Crds.Order.{reconcile_name_kinds, reconcile_name-order}
use knative_functions_contro.Crds.Provided.{IsProvided, reconcile_crd-provides}
use knative_functions_contro.Crds.Agreement.{synced, reconcile_service-agrees}
use knative_functions_contro.Functions.Steps
use knative_functions_contro.Crds.Endings.{IsDone, IsStopped, reconcile_name-ends}
use knative_functions_contro.Crds.Race.{IsSemantic, reconcile_crd-reverts}
use knative_functions_contro.Crds.Bootstrap.{first_config_map, reconcile_crd_bootstraps}
use knative_functions_contro.Tests.Libraries.{
  hello, same_version_refl, same_version-eq, test_libraries,
}
use knative_functions_contro.Tests.Cluster.{
  Cluster, missing, test_config_map, test_definition, test_env, test_service, bare, start, steady,
}

abbrev begin : Cluster → State Cluster (Unit {0})
begin w = record { world = w; calls = []; object = tt }

abbrev map_name : String
map_name = "config-function-" ++ "echoes"

abbrev first_map_created : Cluster
first_map_created = record bare {
  config_map = some (first_config_map "knative-functions" map_name);
}

abbrev first_service : Service
first_service = make_knative_service "echoes" "" "image"

reconcile_name-order_example :
    Made reconcile_name_kinds []
      (reconcile_name test_env test_libraries "echoes.functions.knative.dev" (begin bare)).1.calls
reconcile_name-order_example =
    reconcile_name-order test_env test_libraries "echoes.functions.knative.dev" (begin bare)

reconcile_crd_bootstraps_example :
    reconcile_crd test_env test_libraries test_definition (begin bare) ≡ (
      returned tt,
      record (begin bare) {
        world = record first_map_created { service = some first_service };
        calls =
            create_service "knative-functions" first_service
            ∷ get_service "knative-functions" "echoes"
            ∷ get_crd ("echoes" ++ ".functions.knative.dev")
            ∷ create_config_map "knative-functions" (first_config_map "knative-functions" map_name)
            ∷ get_config_map "knative-functions" map_name
            ∷ [];
      },
    )
unfolding lookup
reconcile_crd_bootstraps_example =
    reconcile_crd_bootstraps test_env test_libraries test_definition test_definition
      "knative-functions" "image" (first_config_map "knative-functions" map_name) first_service
      missing missing bare first_map_created first_map_created first_map_created
      (record first_map_created { service = some first_service }) (begin bare) refl refl refl refl
      refl refl refl refl refl refl

-- The config map is there with version 7, and the service that is found carries version 6.
abbrev updated : Cluster
updated = record steady {
  service = some (record test_service { spec = (make_knative_service "echoes" "7" "image").spec });
}

reconcile_crd-provides_example :
    IsProvided test_env test_libraries test_definition (begin steady) (record (begin updated) {
      calls =
          update_service "knative-functions"
            (record test_service { spec = (make_knative_service "echoes" "7" "image").spec })
          ∷ get_service "knative-functions" "echoes"
          ∷ get_crd ("echoes" ++ ".functions.knative.dev")
          ∷ get_config_map "knative-functions" map_name
          ∷ [];
    })
unfolding lookup make_knative_service reconcile_crd actions
reconcile_crd-provides_example =
    reconcile_crd-provides test_env test_libraries test_definition (begin steady) _ refl refl

-- The definition is there, and the server refuses every write.
abbrev locked : Cluster
locked = record bare { accepts = false }

reconcile_name-ends_example :
    (t : State Cluster (Unit {0})) × (((reconcile_name test_env test_libraries
            "echoes.functions.knative.dev"
            (begin locked)
          ≡ (returned tt, t))
        × IsDone test_env test_libraries "knative-functions" "echoes.functions.knative.dev"
            (begin locked)
            t)
      ⊎ ((x : Error) × (reconcile_name test_env test_libraries "echoes.functions.knative.dev"
              (begin locked)
            ≡ (failed x, t))
          × IsStopped test_env test_libraries "knative-functions" "echoes.functions.knative.dev"
              (begin locked)
              x
              t))
reconcile_name-ends_example =
    reconcile_name-ends test_env test_libraries "knative-functions" refl
      "echoes.functions.knative.dev" (begin locked)

-- The service was created for version 6; the cluster has what the Functions' reconciler made of it.
abbrev followed : Cluster
followed = record steady { service = some (synced "echoes" "image" "6" "7") }

reconcile_service-agrees_example :
    ((Steps.reconcile_service test_env test_libraries "echoes"
        (make_knative_service "echoes" "6" "image")
        test_config_map
        (start steady hello)).1.calls
      ≡ update_service "knative-functions" (synced "echoes" "image" "6" "7") ∷ [])
    × (reconcile_service test_env test_libraries "echoes" test_config_map (begin followed) ≡ (
      returned (synced "echoes" "image" "6" "7"),
      record (begin followed) {
        calls =
            get_service "knative-functions" "echoes"
            ∷ get_crd ("echoes" ++ ".functions.knative.dev")
            ∷ [];
      },
    ))
unfolding lookup
reconcile_service-agrees_example =
    reconcile_service-agrees test_env test_libraries "echoes" "image" "6" test_config_map
      test_definition followed followed (start steady hello) (begin followed)
      (λ spec. same_version_refl (lookup_nil config_map_annotation spec.annotations)) refl refl refl

-- The config map was read with version 7, and the service then carries version 8.
abbrev ahead_service : Service
ahead_service = record test_service { spec = (make_knative_service "echoes" "8" "image").spec }

abbrev put_back : Service
put_back = record test_service { spec = (make_knative_service "echoes" "7" "image").spec }

abbrev ahead : Cluster
ahead = record steady { service = some ahead_service }

pub test-IsSemantic : IsSemantic test_libraries
test-IsSemantic a b h =
    same_version-eq (lookup_nil config_map_annotation a.annotations)
      (lookup_nil config_map_annotation b.annotations) h

reconcile_crd-reverts_example :
    reconcile_crd test_env test_libraries test_definition (begin ahead) ≡ (
      returned tt,
      record (begin (record ahead { service = some put_back })) {
        calls =
            update_service "knative-functions" put_back
            ∷ get_service "knative-functions" "echoes"
            ∷ get_crd ("echoes" ++ ".functions.knative.dev")
            ∷ get_config_map "knative-functions" map_name
            ∷ [];
      },
    )
unfolding lookup
reconcile_crd-reverts_example =
    reconcile_crd-reverts test_env test_libraries test_definition test_definition
      "knative-functions" "image" "8" test_config_map ahead_service put_back ahead ahead ahead
      (record ahead { service = some put_back }) (begin ahead) test-IsSemantic refl refl refl refl
      refl refl refl (λ h. false≢true ((eq_iff "7" "8").1 h)) refl
