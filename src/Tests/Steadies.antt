-- ===== src/Tests/Steadies.antt =====
-- The theorem on a steady cluster, for the cluster of the tests, whose service carries another version.
use Prim.Native.String.{◌++◌}
use knative_functions_contro.Common.{
  String, Dict, ◌≡◌, refl, true, some, [], ◌∷◌, insert, lookup, split_dots, returned,
}
use knative_functions_contro.Kube.Objects.{ConfigMap, Service}
use knative_functions_contro.Kube.Api.{
  get_config_map, get_route, get_service, update_config_map, update_service,
}
use knative_functions_contro.Kube.Action.{State}
use knative_functions_contro.Duck.Types.{Function, config_map_annotation}
use knative_functions_contro.Functions.Steps.{with_version}
use knative_functions_contro.Duck.Lifecycle.{is_ready}
use knative_functions_contro.Resources.Route.{make_route_name}
use knative_functions_contro.Resources.Ksvc.{make_knative_service}
use knative_functions_contro.Functions.Config.{host_key}
use knative_functions_contro.Functions.Entries.{written}
use knative_functions_contro.Functions.Reconciler.{reconcile_function, route_url}
use knative_functions_contro.Functions.Steady.{reconcile_function-succeeds}
use knative_functions_contro.Tests.Conditions.{find, test_conditions_laws}
use knative_functions_contro.Tests.Libraries.{
  encode, decode, hello, is_controlled, test_host, test_json_laws, test_libraries,
}
use knative_functions_contro.Tests.Cluster.{
  Cluster, start, steady, test_address, test_config_map, test_env, test_route, test_service,
  test_url,
}

abbrev stored : ConfigMap
stored = written test_config_map "{\"reply\":1}"

-- The service with the version of the config map, for the one before.
abbrev test_annotations : Dict String
test_annotations = (config_map_annotation, "6") ∷ []

abbrev followed : Service
followed = with_version test_service "7" test_annotations

reconcile_function-succeeds_example :
    (s' : State Cluster Function) × (reconcile_function test_env test_libraries "echoes"
        (start steady hello)
      ≡ (returned tt, s'))
    × (s'.calls
        ≡ update_service "knative-functions" followed
          ∷ update_config_map "knative-functions" stored
          ∷ get_config_map "knative-functions" ("config-function-" ++ "echoes")
          ∷ get_route "knative-functions" (make_route_name "echoes" "hello" "default")
          ∷ get_service "knative-functions" "echoes"
          ∷ [])
    × (is_ready test_libraries.conditions s'.object.status ≡ true)
    × (s'.object.status.address
        ≡ some (record { url = some (route_url test_libraries test_route) }))
unfolding encode decode find host_key is_controlled make_knative_service insert lookup split_dots
    with_version
reconcile_function-succeeds_example =
    reconcile_function-succeeds test_env test_libraries "echoes" test_conditions_laws test_json_laws
      "knative-functions" test_host "{\"reply\":1}" test_service followed test_annotations
      test_route test_address test_url test_config_map stored [] steady steady steady
      (record steady { config_map = some stored })
      (record steady { config_map = some stored; service = some followed }) (start steady hello)
      refl refl refl refl refl refl refl refl refl refl refl refl refl refl (λ _. (refl, refl))
