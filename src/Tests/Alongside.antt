-- ===== src/Tests/Alongside.antt =====
-- The CRD reconciler next to the workers of the kind.
use knative_functions_contro.Functions.Workers.Service
use knative_functions_contro.Crds.Alongside.{Cluster, has_map}
use knative_functions_contro.Tests.Libraries.{test_libraries}
use knative_functions_contro.Tests.Cluster.{test_config_map, test_env}
use knative_functions_contro.Tests.Workers.{ticks}

-- The CRD reconciler has read the config map, and not yet sent its update.
abbrev map_read : Cluster
map_read =
    let shared =
      Service.begin test_env test_libraries "echoes" "knative-functions" ticks "image"
        test_config_map 3 5 in
    record { shared = shared; crd = has_map shared.server }
