-- ===== src/Tests/Services.antt =====
-- The theorems on reconcileService of functions.go, at concrete inputs.
use knative_functions_contro.Common.{String, ◌≡◌, ◌≢◌, ◌⊎◌, none, some, Dict, returned, panicked}
use knative_functions_contro.Kube.Objects.{Service}
use knative_functions_contro.Functions.Steps.{reconcile_service}
use knative_functions_contro.Functions.ServiceSync.{
  template_version, reconcile_service-syncs, IsSynced,
}
use knative_functions_contro.Tests.Libraries.{hello, test_libraries}
use knative_functions_contro.Tests.Cluster.{test_config_map, test_env, test_service, start, steady}

-- A service whose template has no annotations.
abbrev plain_service : Service
plain_service = record test_service { spec = record (test_service.spec) { annotations = none } }

reconcile_service-syncs_example :
    ((template_version plain_service ≡ "7")
      × (reconcile_service test_env test_libraries "echoes" plain_service test_config_map
            (start steady hello)
          ≡ (returned plain_service, start steady hello)))
    ⊎ ((template_version plain_service ≢ "7")
        × (((m : Dict String) × (service' : Service) × (plain_service.spec.annotations ≡ some m)
              × IsSynced test_env test_libraries "echoes" plain_service test_config_map
                  (start steady hello)
                  m
                  service')
            ⊎ ((plain_service.spec.annotations ≡ none)
                × (reconcile_service test_env test_libraries "echoes" plain_service test_config_map
                      (start steady hello)
                    ≡ (panicked, start steady hello)))))
reconcile_service-syncs_example =
    reconcile_service-syncs test_env test_libraries "echoes" plain_service test_config_map
      (start steady hello)
