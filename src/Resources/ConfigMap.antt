-- ===== src/Resources/ConfigMap.antt =====
-- pkg/reconciler/crds/resources/configmap.go
use knative_functions_contro.Common.{String, some, [], ◌∷◌, Result, ok}
use knative_functions_contro.Kube.Objects.{ConfigMap, empty_meta}

-- The key under which the configuration of a function stands.
abbrev pub config_key : String
config_key = "___config.json"

unfoldable pub make_config_map : String → String → Result ConfigMap
make_config_map namespace name = ok (record {
  type_meta = record { api_version = "v1"; kind = "ConfigMap" };
  meta = record empty_meta { name = name; namespace = namespace };
  contents = some ((config_key, "{}") ∷ []);
})
