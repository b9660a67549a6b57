-- ===== src/Resources/Route.antt =====
-- pkg/reconciler/functions/resources/route.go
use Prim.Native.String.{◌++◌}
use knative_functions_contro.Common.{
  String, ◌≡◌, refl, true, none, some, List, [], ◌∷◌, Result, ok, err,
}
use knative_functions_contro.Kube.Objects.{Route, RouteStatus, empty_meta}
use knative_functions_contro.Kube.Libraries.{Libraries}
use knative_functions_contro.Duck.Types.{Function}
use knative_functions_contro.Duck.Lifecycle.{get_group_version_kind}

abbrev pub function_role_label : String
function_role_label = "functions.knative.dev/role"

abbrev pub function_role : String
function_role = "dispatcher"

-- fmt.Sprintf("%s-%s-%s", functionName, ns, name)
unfoldable pub make_route_name : String → String → String → String
make_route_name function_name name ns = function_name ++ "-" ++ ns ++ "-" ++ name

-- type RouteOption: it changes the route, or fails
abbrev pub RouteOption : Type 0
RouteOption = Route → Result Route

-- The loop over the options, which stops at the first error.
unfoldable pub apply_options : List RouteOption → Route → Result Route
apply_options [] route = ok route
apply_options (opt ∷ opts) route = elim (opt route) [ ok r ↦ apply_options opts r | err e ↦ err e ]

-- The status of an object that was never at the server.
abbrev pub empty_route_status : RouteStatus
empty_route_status = record { conditions = []; url = none; address = none }

-- The literal of MakeRoute.
unfoldable pub route_literal : Libraries → String → Function → Route
unfolding make_route_name get_group_version_kind
route_literal libs function_name fn = record {
  type_meta = record { api_version = "v1beta1"; kind = "Route" };
  meta = record empty_meta {
    name = make_route_name function_name fn.meta.name fn.meta.namespace;
    namespace = "knative-functions";
    labels = some ((function_role_label, function_role) ∷ []);
    owner_references = libs.new_controller_ref fn.meta (get_group_version_kind libs fn) ∷ [];
  };
  traffic =
      record { configuration_name = function_name; latest_revision = some true; percent = 100 }
      ∷ [];
  status = empty_route_status;
}

unfoldable pub make_route : Libraries → String → Function → List RouteOption → Result Route
unfolding route_literal apply_options
make_route libs function_name fn opts = apply_options opts (route_literal libs function_name fn)

pub make_route_plain :
    (libs : Libraries) (function_name : String) (fn : Function)
    → make_route libs function_name fn [] ≡ ok (route_literal libs function_name fn)
unfolding make_route
make_route_plain libs function_name fn = refl
