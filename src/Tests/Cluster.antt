-- ===== src/Tests/Cluster.antt =====
-- A cluster for the tests: at most one object of each kind, and whether it accepts writes.
use knative_functions_contro.Common.{
  Bool, true, false, Option, none, some, [], ◌∷◌, Error, Result, ok, err,
}
use knative_functions_contro.Kube.Objects.{
  is_true, Url, Addressable, Route, Service, ConfigMap, CustomResourceDefinition, Unstructured,
  empty_meta,
}
use knative_functions_contro.Kube.Api.{
  Call, Reply, Env, get_function, update_function_status, get_route, create_route, get_service,
  create_service, update_service, get_config_map, create_config_map, update_config_map, get_crd,
  warning_event,
}
use knative_functions_contro.Kube.Action.{State}
use knative_functions_contro.Kube.Conditions.{condition_ready}
use knative_functions_contro.Duck.Types.{Function}
use knative_functions_contro.Resources.Route.{make_route_name}
use knative_functions_contro.Resources.Ksvc.{make_knative_service}
use knative_functions_contro.Resources.ConfigMap.{config_key}
use knative_functions_contro.Crds.Reconciler.{image_annotation}
use knative_functions_contro.Tests.Conditions.{condition}
use knative_functions_contro.Tests.Libraries.{test_error}

pub record Cluster : Type 0 where
  pub function : Option Unstructured
  pub route : Option Route
  pub service : Option Service
  pub config_map : Option ConfigMap
  pub definition : Option CustomResourceDefinition
  pub accepts : Bool

abbrev pub missing : Error
missing = record { message = "not found"; not_found = true }

abbrev pub found : {A : Type 0} → Option A → Result A
found none = err missing
found (some a) = ok a

-- The answer to a write that sets the object.
abbrev pub written_if : {A : Type 0} → Bool → A → Cluster → Cluster → Result A × Cluster
written_if true a new old = (ok a, new)
written_if false a new old = (err test_error, old)

abbrev pub respond : (c : Call) → Cluster → Result (Reply c) × Cluster
respond (get_function ns name) w = (found w.function, w)
respond (update_function_status ns u) w = written_if w.accepts u (record w { function = some u }) w
respond (get_route ns name) w = (found w.route, w)
respond (create_route ns r) w = written_if w.accepts r (record w { route = some r }) w
respond (get_service ns name) w = (found w.service, w)
respond (create_service ns s) w = written_if w.accepts s (record w { service = some s }) w
respond (update_service ns s) w = written_if w.accepts s (record w { service = some s }) w
respond (get_config_map ns name) w = (found w.config_map, w)
respond (create_config_map ns cm) w = written_if w.accepts cm (record w { config_map = some cm }) w
respond (update_config_map ns cm) w = written_if w.accepts cm (record w { config_map = some cm }) w
respond (get_crd name) w = (found w.definition, w)
respond (warning_event name reason message) w = (ok tt, w)

abbrev pub test_env : Env Cluster
test_env = record { answer = respond }

abbrev pub test_config_map : ConfigMap
test_config_map = record {
  type_meta = record { api_version = "v1"; kind = "ConfigMap" };
  meta = record empty_meta {
    name = "config-function-echoes";
    namespace = "knative-functions";
    resource_version = "7";
  };
  contents = some ((config_key, "{}") ∷ []);
}

abbrev pub test_service : Service
test_service = record (make_knative_service "echoes" "6" "image") {
  conditions = condition condition_ready is_true ∷ [];
}

abbrev pub test_url : Url
test_url = record { scheme = "http"; host = "hello.functions.svc.cluster.local" }

abbrev pub test_address : Addressable
test_address = record { url = some test_url }

abbrev pub test_route : Route
test_route = record {
  type_meta = record { api_version = "v1beta1"; kind = "Route" };
  meta = record empty_meta {
    name = make_route_name "echoes" "hello" "default";
    namespace = "knative-functions";
    owner_references =
        record {
          api_version = "functions.knative.dev";
          kind = "Echo";
          name = "hello";
          uid = "1";
          controller = true;
        }
        ∷ [];
  };
  traffic = [];
  status = record {
    conditions = condition condition_ready is_true ∷ [];
    url = some (record { scheme = "http"; host = "hello.example.com" });
    address = some test_address;
  };
}

abbrev pub test_definition : CustomResourceDefinition
test_definition = record {
  meta = record empty_meta {
    name = "echoes.functions.knative.dev";
    annotations = some ((image_annotation, "image") ∷ []);
  };
  group = "functions.knative.dev";
  version = "v1alpha1";
  plural = "echoes";
}

-- Everything that a Function needs is there and ready.
abbrev pub steady : Cluster
steady = record {
  function = some (record { json = "{\"reply\":1}" });
  route = some test_route;
  service = some test_service;
  config_map = some test_config_map;
  definition = some test_definition;
  accepts = true;
}

-- Only the definition is there.
abbrev pub bare : Cluster
bare = record {
  function = none;
  route = none;
  service = none;
  config_map = none;
  definition = some test_definition;
  accepts = true;
}

-- The start of a reconcile.
abbrev pub start : Cluster → Function → State Cluster Function
start w fn = record { world = w; calls = []; object = fn }
