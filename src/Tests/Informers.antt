-- ===== src/Tests/Informers.antt =====
-- The theorems on listers and informers, at concrete inputs.
use Prim.Native.String.{◌++◌}
use mathlib.Core.Option
use knative_functions_contro.Common.{
  String, ◌≡◌, refl, true, ◌==◌, if◌then◌else◌, none, some, [], ◌∷◌, Error, ok,
}
use knative_functions_contro.Kube.Objects.{GroupVersionResource, Unstructured}
use knative_functions_contro.Dynamic.Lister.{unstructured, Indexer}
use knative_functions_contro.Dynamic.Shim.{runtime_object, informer_lister, informer_lister-list}
use knative_functions_contro.Dynamic.Factory.{
  find, Factory, new_filtered_factory, for_resource, is_started, start, wait_for_cache_sync,
  DynamicClient, list_func, watch_func,
}
use knative_functions_contro.Dynamic.Started.{count_runs, stays, goes_on, requests, starts, is_some}
use knative_functions_contro.Dynamic.Reached.{
  start-runs_once, for_resource-keeps, wait_for_cache_sync-find,
}
use knative_functions_contro.Dynamic.Watched.{for_resource-watches}
use knative_functions_contro.Tests.Libraries.{test_error}

abbrev object : Unstructured
object = record { json = "{}" }

abbrev test_indexer : Indexer
test_indexer = record {
  get_by_key = λ key. if key == "default/hello" then ok (some (unstructured object)) else ok none;
  list_all = λ selector. (unstructured object ∷ [], none);
  list_all_by_namespace = λ namespace selector. (unstructured object ∷ [], some test_error);
}

abbrev gone : String → String → String → Error
gone group resource name = record { message = name ++ " not found"; not_found = true }

abbrev echoes : GroupVersionResource
echoes = record { group = "functions.knative.dev"; version = "v1alpha1"; resource = "echoes" }

informer_lister-list_example :
    let lister = informer_lister gone test_indexer echoes in
    (lister.list (record { text = "" }) ≡ some (some (runtime_object object) ∷ [], none))
    × ((lister.by_namespace "default").list (record { text = "" }) ≡ some ([], some test_error))
informer_lister-list_example =
    informer_lister-list gone test_indexer echoes (record { text = "" }) "default" (object ∷ [])
      (object ∷ []) none (some test_error) refl refl

-- A factory for the namespace `one`, and the same factory once it was asked for a resource.
abbrev new_one : Factory
new_one = new_filtered_factory 10 "one" (some (λ options. record { text = "b" }))

abbrev asked : Factory
asked = (for_resource echoes new_one).1

start-runs_once_example :
    count_runs echoes (start asked.informers asked).running
    ≡ (if is_some (find echoes asked.informers) then 1 else 0)
start-runs_once_example =
    start-runs_once 10 "one" (some (λ options. record { text = "b" })) asked asked.informers echoes
      (goes_on stays (requests echoes)) (λ h. refl)

for_resource-keeps_example :
    for_resource echoes (start asked.informers asked)
    ≡ ((for_resource echoes new_one).0, start asked.informers asked)
for_resource-keeps_example =
    for_resource-keeps new_one (start asked.informers asked) echoes
      (goes_on stays (starts asked.informers (λ h. refl)))

wait_for_cache_sync-find_example :
    find echoes (wait_for_cache_sync (λ i. true) asked.informers asked) ≡ (
      if is_started echoes asked
      then Option.map (λ i. true) (find echoes asked.informers)
      else none)
wait_for_cache_sync-find_example =
    wait_for_cache_sync-find (λ i. true) asked asked.informers echoes (λ h. refl)

-- A client that answers with the resource and the namespace.
abbrev echo_client : DynamicClient (String × String) (String × String)
echo_client = record {
  list = λ g ns options. (g.resource, ns);
  watch = λ g ns options. (options.text, ns);
}

for_resource-watches_example :
    (list_func echo_client (for_resource echoes new_one).0 (record { text = "a" }) ≡ ("echoes", ""))
    × (watch_func echo_client (for_resource echoes new_one).0 (record { text = "a" }) ≡ ("a", ""))
    × ((for_resource echoes new_one).0.resync_period ≡ 10)
for_resource-watches_example =
    for_resource-watches 10 "one" (some (λ options. record { text = "b" })) echo_client new_one
      echoes (record { text = "a" }) stays
