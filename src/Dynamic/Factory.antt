-- ===== src/Dynamic/Factory.antt =====
-- dynamicSharedInformerFactory of pkg/dynamic/dynamicinformer/informer.go, and the context values of
-- pkg/dynamic/dynamic.go and pkg/dynamic/factory/factory.go. The methods hold the factory's lock, so
-- each of them is one step.
use knative_functions_contro.Common.{
  ℕ, suc, String, Bool, true, false, ◌&&◌, if◌then◌else◌, ◌==◌, Option, none, some, List, [], ◌∷◌,
}
use knative_functions_contro.Kube.Objects.{GroupVersionResource}

-- A map keyed by group, version and resource. The first entry of a key is in force.
abbrev pub same_gvr : GroupVersionResource → GroupVersionResource → Bool
same_gvr a b = (a.group == b.group) && (a.version == b.version) && (a.resource == b.resource)

unfoldable pub find {ℓ} :
    {V : Type ℓ} → GroupVersionResource → List (GroupVersionResource × V) → Option V
find g [] = none
find g ((k, v) ∷ m) = if same_gvr k g then some v else find g m

abbrev pub put {ℓ} :
    {V : Type ℓ}
    → GroupVersionResource
    → V
    → List (GroupVersionResource × V)
    → List (GroupVersionResource × V)
put g v m = (g, v) ∷ m

-- metav1.ListOptions, by their text
pub record ListOptions : Type 0 where
  pub text : String

-- TweakListOptionsFunc: what the function makes of the options that it is handed a pointer to.
abbrev pub TweakListOptions : Type 0
TweakListOptions = ListOptions → ListOptions

-- dynamicInformer: the identity of its shared informer, and the arguments that it was made with.
pub record Informer : Type 0 where
  pub id : ℕ
  pub gvr : GroupVersionResource
  pub namespace : String
  pub resync_period : ℕ
  pub tweak_list_options : Option TweakListOptions

-- NewFilteredDynamicInformer
abbrev pub new_filtered_informer :
    ℕ → GroupVersionResource → String → ℕ → Option TweakListOptions → Informer
new_filtered_informer id gvr namespace resync_period tweak_list_options = record {
  id = id;
  gvr = gvr;
  namespace = namespace;
  resync_period = resync_period;
  tweak_list_options = tweak_list_options;
}

-- dynamic.Interface: `client.Resource(gvr).Namespace(namespace)`, and its List and its Watch.
pub record DynamicClient (Listed Watched : Type 0) : Type 0 where
  pub list : GroupVersionResource → String → ListOptions → Listed
  pub watch : GroupVersionResource → String → ListOptions → Watched

unfoldable pub tweaked : Option TweakListOptions → ListOptions → ListOptions
tweaked none options = options
tweaked (some f) options = f options

-- The ListFunc and the WatchFunc of the informer.
unfoldable pub list_func : {L V : Type 0} → DynamicClient L V → Informer → ListOptions → L
unfolding tweaked
list_func client informer options =
    client.list informer.gvr informer.namespace (tweaked informer.tweak_list_options options)

unfoldable pub watch_func : {L V : Type 0} → DynamicClient L V → Informer → ListOptions → V
unfolding tweaked
watch_func client informer options =
    client.watch informer.gvr informer.namespace (tweaked informer.tweak_list_options options)

-- The factory, with the number of informers made by it and, in `running`, the informers that have
-- been run by `go informer.Informer().Run(stopCh)`, the latest first.
pub record Factory : Type 0 where
  pub default_resync : ℕ
  pub namespace : String
  pub informers : List (GroupVersionResource × Informer)
  pub started_informers : List (GroupVersionResource × Bool)
  pub made : ℕ
  pub running : List Informer

-- metav1.NamespaceAll
abbrev pub namespace_all : String
namespace_all = ""

-- The arguments for the namespace and for the list options are not used.
unfoldable pub new_filtered_factory : ℕ → String → Option TweakListOptions → Factory
new_filtered_factory default_resync namespace tweak_list_options = record {
  default_resync = default_resync;
  namespace = namespace_all;
  informers = [];
  started_informers = [];
  made = 0;
  running = [];
}

unfoldable pub new_factory : ℕ → Factory
unfolding new_filtered_factory
new_factory default_resync = new_filtered_factory default_resync namespace_all none

unfoldable pub for_resource : GroupVersionResource → Factory → Informer × Factory
unfolding find
for_resource gvr f = elim (find gvr f.informers) [
  | some informer ↦ (informer, f)
  | none ↦
      let informer = new_filtered_informer f.made gvr f.namespace f.default_resync none in
      (informer, record f { informers = put gvr informer f.informers; made = suc f.made })
]

-- f.startedInformers[informerType], which is false on a missing key
abbrev pub or_false : Option Bool → Bool
or_false none = false
or_false (some b) = b

abbrev pub is_started : GroupVersionResource → Factory → Bool
is_started gvr f = or_false (find gvr f.started_informers)

-- The body of the loop of Start.
unfoldable pub start_informer : GroupVersionResource → Informer → Factory → Factory
start_informer gvr informer f = if is_started gvr f then f else record f {
  running = informer ∷ f.running;
  started_informers = put gvr true f.started_informers;
}

-- Start: `order` is the order in which the loop meets the entries of the map, which Go leaves open.
unfoldable pub start : List (GroupVersionResource × Informer) → Factory → Factory
unfolding start_informer
start [] f = f
start ((gvr, informer) ∷ order) f = start order (start_informer gvr informer f)

-- The informers of WaitForCacheSync, and then what it reports of each: `synced` is
-- cache.WaitForCacheSync for the stop channel.
unfoldable pub started_entries :
    List (GroupVersionResource × Informer) → Factory → List (GroupVersionResource × Informer)
unfolding find
started_entries [] f = []
started_entries ((gvr, informer) ∷ order) f =
    let rest = started_entries order f in if is_started gvr f then (gvr, informer) ∷ rest else rest

unfoldable pub sync_results :
    (Informer → Bool) → List (GroupVersionResource × Informer) → List (GroupVersionResource × Bool)
sync_results synced [] = []
sync_results synced ((gvr, informer) ∷ informers) =
    (gvr, synced informer) ∷ sync_results synced informers

unfoldable pub wait_for_cache_sync :
    (Informer → Bool)
    → List (GroupVersionResource × Informer)
    → Factory
    → List (GroupVersionResource × Bool)
unfolding started_entries sync_results
wait_for_cache_sync synced order f = sync_results synced (started_entries order f)
