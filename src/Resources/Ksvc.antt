-- ===== src/Resources/Ksvc.antt =====
-- pkg/reconciler/crds/resources/ksvc.go
use Prim.Native.String.{◌++◌}
use knative_functions_contro.Common.{String, some, [], ◌∷◌}
use knative_functions_contro.Kube.Objects.{Service, empty_meta}
use knative_functions_contro.Duck.Types.{config_map_annotation}

unfoldable pub make_knative_service : String → String → String → Service
make_knative_service function_name version image = record {
  type_meta = record { api_version = "v1beta1"; kind = "Service" };
  meta = record empty_meta { name = function_name; namespace = "knative-functions" };
  spec = record {
    annotations = some ((config_map_annotation, version) ∷ []);
    containers =
        record {
          image = image;
          volume_mounts =
              record {
                name = "config-function-" ++ function_name;
                mount_path = "/ko-app/___config.json";
                sub_path = "___config.json";
              }
              ∷ [];
        }
        ∷ [];
    volumes =
        record {
          name = "config-function-" ++ function_name;
          config_map_name = "config-function-" ++ function_name;
        }
        ∷ [];
    other_fields = [];
  };
  conditions = [];
}
