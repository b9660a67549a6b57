-- ===== src/Tests/Routes.antt =====
-- The theorems on routes and their names, at concrete inputs.
use Prim.Native.String.{◌++◌}
use knative_functions_contro.Common.{String, ◌≡◌, refl, arith, eq_refl, some, [], ◌∷◌, returned}
use knative_functions_contro.Kube.Objects.{Route}
use knative_functions_contro.Kube.Api.{get_route, create_route}
use knative_functions_contro.Functions.Steps.{reconcile_route}
use knative_functions_contro.Functions.Adoption.{IsControllerRef, reconcile_route-adopts}
use knative_functions_contro.Tests.Libraries.{hello, is_controlled, test_libraries}
use knative_functions_contro.Tests.Cluster.{Cluster, bare, missing, start, test_env}
use knative_functions_contro.Resources.Route.{make_route_name, route_literal}
use knative_functions_contro.Resources.RouteName.{
  has_no_dash, make_route_name_injective, make_route_name_collision,
}

make_route_name_injective_example :
    (◌≡◌ {A = String} "default" "default") × (◌≡◌ {A = String} "hello-world" "hello-world")
unfolding has_no_dash
make_route_name_injective_example =
    make_route_name_injective "echoes" "hello-world" "hello-world" "default" "default" refl refl
      refl

make_route_name_collision_example :
    make_route_name "echoes" ("b" ++ "-" ++ "c") "a"
    ≡ make_route_name "echoes" "c" ("a" ++ "-" ++ "b")
make_route_name_collision_example = make_route_name_collision "echoes" "a" "b" "c"

abbrev created : Route
created = route_literal test_libraries "echoes" hello

abbrev with_route : Cluster
with_route = record bare { route = some created }

test_controls : IsControllerRef test_libraries
unfolding is_controlled
test_controls meta owner gvk h = rw h (ground (arith, eq_refl owner.uid))

reconcile_route-adopts_example :
    (reconcile_route test_env test_libraries "echoes" (start bare hello) ≡ (
      returned created,
      record (start with_route hello) {
        calls =
            create_route "knative-functions" created
            ∷ get_route "knative-functions" (make_route_name "echoes" "hello" "default")
            ∷ [];
      },
    ))
    × (reconcile_route test_env test_libraries "echoes" (start with_route hello) ≡ (
      returned created,
      record (start with_route hello) {
        calls = get_route "knative-functions" (make_route_name "echoes" "hello" "default") ∷ [];
      },
    ))
reconcile_route-adopts_example =
    reconcile_route-adopts test_env test_libraries "echoes" created created missing bare with_route
      with_route (start bare hello) (start with_route hello) test_controls refl refl refl refl refl
      refl
