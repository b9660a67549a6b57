-- ===== src/Tests/Statuses.antt =====
-- The theorems on the readiness of a Function, at concrete inputs.
use knative_functions_contro.Common.{◌≡◌, false, refl, some, [], ◌∷◌}
use knative_functions_contro.Kube.Objects.{is_true}
use knative_functions_contro.Kube.Conditions.{contains, others_true}
use knative_functions_contro.Duck.Types.{FunctionStatus}
use knative_functions_contro.Duck.Lifecycle.{
  function_condition_config_map_synced, function_condition_addressable, mark_route_not_ready,
  mark_service_not_synced, function_cond_set, get_condition, is_ready, initialize_conditions,
  mark_true, mark_false, set_address,
}
use knative_functions_contro.Duck.Conditions.{reported, is_ready-mark_false}
use knative_functions_contro.Duck.Readiness.{
  initializes, config_map_synced, address_set, apply, apply_all, ready-apply_all,
}
use knative_functions_contro.Tests.Conditions.{
  find, initialise, without_ready, test_conditions, test_conditions_laws,
}
use knative_functions_contro.Tests.Libraries.{hello}
use knative_functions_contro.Tests.Cluster.{test_url}

-- The status of a Function whose config map is synced, and that of a ready one.
abbrev synced : FunctionStatus
synced = mark_true test_conditions function_condition_config_map_synced hello.status

abbrev ready : FunctionStatus
ready = set_address test_conditions (some test_url) synced

ready-apply_all_example :
    let ms = initializes ∷ config_map_synced ∷ address_set (some test_url) ∷ [] in
    (reported test_conditions
        (apply_all test_conditions ms hello.status)
        function_condition_config_map_synced
      ≡ some is_true)
    × (reported test_conditions
          (apply_all test_conditions ms hello.status)
          function_condition_addressable
        ≡ some is_true)
unfolding apply_all apply is_ready function_cond_set get_condition initialize_conditions mark_true
    set_address contains others_true find initialise without_ready
ready-apply_all_example =
    ready-apply_all test_conditions test_conditions_laws
      (initializes ∷ config_map_synced ∷ address_set (some test_url) ∷ []) hello.status refl refl

is_ready-mark_false_example :
    (is_ready test_conditions
        (mark_false test_conditions function_condition_addressable "Reason" "message" [] ready)
      ≡ false)
    × (is_ready test_conditions (mark_route_not_ready test_conditions "Reason" "message" [] ready)
        ≡ is_ready test_conditions ready)
    × (is_ready test_conditions
          (mark_service_not_synced test_conditions "Reason" "message" [] ready)
        ≡ is_ready test_conditions ready)
is_ready-mark_false_example =
    is_ready-mark_false test_conditions test_conditions_laws function_condition_addressable "Reason"
      "message" [] ready
