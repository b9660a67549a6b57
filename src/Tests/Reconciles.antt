-- ===== src/Tests/Reconciles.antt =====
-- The theorems on reconcile and Reconcile of Functions, on the cluster of the tests.
use knative_functions_contro.Common.{
  String, ◌≡◌, ◌⊎◌, Error, refl, false, none, some, [], ◌∷◌, ok, err, returned, failed, quote,
  split_dots, lookup, insert, if◌then◌else◌,
}
use knative_functions_contro.Kube.Objects.{Route, Service, Unstructured}
use knative_functions_contro.Kube.Api.{get_function}
use knative_functions_contro.Kube.Action.{State, actions}
use knative_functions_contro.Kube.Order.{Made}
use knative_functions_contro.Kube.Conditions.{contains, others_true}
use knative_functions_contro.Duck.Types.{Function}
use knative_functions_contro.Duck.Lifecycle.{
  function_cond_set, get_condition, initialize_conditions, set_address,
}
use knative_functions_contro.Resources.Route.{make_route}
use knative_functions_contro.Resources.Ksvc.{make_knative_service}
use knative_functions_contro.Functions.Steps.{
  check_service, propagate_service_status_if_error, reconcile_route, propagate_route_status,
  reconcile_service, with_version,
}
use knative_functions_contro.Functions.Config.{reconcile_config}
use knative_functions_contro.Functions.Reconciler.{reconcile_function, reconcile_key}
use knative_functions_contro.Functions.Status.{HasFailed}
use knative_functions_contro.Functions.Seen.{IsServiceSeen, IsRouteSeen}
use knative_functions_contro.Functions.Publishing.{IsPublished}
use knative_functions_contro.Functions.Published.{
  reconcile_function-publishes, reconcile_function-fails,
}
use knative_functions_contro.Functions.Order.{reconcile_key_kinds, reconcile_key-order}
use knative_functions_contro.Tests.Conditions.{
  find, initialise, without_ready, test_conditions_laws,
}
use knative_functions_contro.Tests.Libraries.{
  encode, decode, same_conditions, same_value, is_controlled, split_key, hello, test_libraries,
  test_error,
}
use knative_functions_contro.Functions.Endings.{HasRun, reconcile_key-ends}
use knative_functions_contro.Functions.Panicked.{Panic, reconcile_function-panics}
use knative_functions_contro.Functions.Reported.{Report}
use knative_functions_contro.Functions.Reporting.{reconcile_function-reports}
use knative_functions_contro.Tests.Cluster.{
  Cluster, missing, test_env, test_route, steady, bare, start,
}

-- What the tests unfold.
unfoldable everything : Unit {0}
unfolding reconcile_function check_service propagate_service_status_if_error reconcile_route
    propagate_route_status reconcile_service reconcile_config actions function_cond_set
    initialize_conditions get_condition set_address make_route make_knative_service contains
    others_true find initialise without_ready encode decode same_conditions same_value is_controlled
    split_key reconcile_key lookup insert split_dots quote with_version
everything = tt

-- A reconcile of the Function of the tests.
abbrev after : Cluster → State Cluster Function
after w = (reconcile_function test_env test_libraries "echoes" (start w hello)).1

reconcile_function-publishes_example :
    (svc : Service) × (route : Route) × IsServiceSeen test_env test_libraries "echoes" svc
    × IsRouteSeen test_env test_libraries "echoes" hello route
    × IsPublished test_libraries svc route hello (after steady).object
unfolding everything
reconcile_function-publishes_example =
    reconcile_function-publishes test_env test_libraries test_conditions_laws "echoes"
      (start steady hello) (after steady) refl refl

reconcile_function-fails_example : HasFailed test_libraries hello (after bare).object
unfolding everything
reconcile_function-fails_example =
    reconcile_function-fails test_env test_libraries test_conditions_laws "echoes"
      (start bare hello) (after bare) missing refl

-- Everything is there, and the server refuses every write: the update of the config map fails.
abbrev refusing : Cluster
refusing = record steady { accepts = false }

reconcile_function-reports_example :
    (hello.meta.deletion_timestamp ≡ none)
    × Report test_env test_libraries "echoes" hello test_error (after refusing).object
unfolding everything
reconcile_function-reports_example =
    reconcile_function-reports test_env test_libraries "echoes" (start refusing hello) test_error
      (after refusing) refl

-- The route is there and ready, but has no address yet.
abbrev unaddressed : Cluster
unaddressed = record steady {
  route = some (record test_route { status = record (test_route.status) { address = none } });
}

reconcile_function-panics_example :
    (hello.meta.deletion_timestamp ≡ none) × Panic test_env test_libraries "echoes" hello
unfolding everything
reconcile_function-panics_example =
    reconcile_function-panics test_env test_libraries "echoes" (start unaddressed hello)
      (after unaddressed) refl

reconcile_key-order_example :
    Made reconcile_key_kinds []
      (reconcile_key test_env test_libraries "echoes" "default/hello" (start steady hello)).1.calls
reconcile_key-order_example =
    reconcile_key-order test_env test_libraries "echoes" "default/hello" (start steady hello)

reconcile_key-ends_example :
    ((e : Error) × (split_key "default/hello" ≡ err e)
      × (reconcile_key test_env test_libraries "echoes" "default/hello" (start refusing hello)
          ≡ (returned tt, start refusing hello)))
    ⊎ ((namespace : String) × (name : String) × (split_key "default/hello" ≡ ok (namespace, name))
        × (((u : Unstructured) × (w : Cluster) × (test_env.answer
                  (get_function namespace name)
                  refusing
                ≡ (ok u, w))
              × HasRun test_env test_libraries "echoes"
                  (reconcile_key test_env test_libraries "echoes" "default/hello"
                    (start refusing hello))
                  (test_libraries.from_unstructured u)
                  (record (start refusing hello) {
                    world = w;
                    calls = get_function namespace name ∷ [];
                    object = test_libraries.from_unstructured u;
                  }))
            ⊎ ((x : Error) × (w : Cluster) × (test_env.answer (get_function namespace name) refusing
                  ≡ (err x, w))
                × (reconcile_key test_env test_libraries "echoes" "default/hello"
                      (start refusing hello)
                    ≡ (
                      (if x.not_found then returned tt else failed x),
                      record (start refusing hello) {
                        world = w;
                        calls = get_function namespace name ∷ [];
                      },
                    )))))
reconcile_key-ends_example =
    reconcile_key-ends test_env test_libraries "echoes" "default/hello" (start refusing hello)
