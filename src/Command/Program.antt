-- ===== src/Command/Program.antt =====
-- main and newHandler of cmd/controller/main.go. What the libraries answer is a parameter.
use Prim.Native.String.{◌++◌}
use mathlib.Core.List
use knative_functions_contro.Common.{
  ℕ, String, Bool, Option, none, some, List, [], ◌∷◌, Result, ok, err,
}
use knative_functions_contro.Kube.Objects.{
  CustomResourceDefinition, GroupVersionResource, ObjectMeta,
}
use knative_functions_contro.Command.Main.{Constructor, gvr_of, assemble, restart_filter}

-- envConfig
pub record EnvConfig : Type 0 where
  pub namespace : String

-- sharedmain.GetConfig of the two flags; apiextensionsclientset.NewForConfigOrDie, which may panic
-- (`none`); the client's List of definitions with a label selector; and envconfig.Process.
pub record Surroundings (Config Clientset : Type 0) : Type 0 where
  pub get_config : String → String → Result Config
  pub new_for_config_or_die : Config → Option Clientset
  pub list_definitions : Clientset → String → Result (List CustomResourceDefinition)
  pub process : String → Result EnvConfig

-- What os.Exit is called with.
pub data Exit : Type 0 where
  exits : ℕ → Exit

-- restartResourceHandler, a cache.ResourceEventHandler
pub record ResourceEventHandler : Type 0 where
  pub on_add : Option ObjectMeta → Exit
  pub on_update : Option ObjectMeta → Option ObjectMeta → Exit
  pub on_delete : Option ObjectMeta → Exit

unfoldable pub restart_resource_handler : ResourceEventHandler
restart_resource_handler = record {
  on_add = λ obj. exits 0;
  on_update = λ old_obj new_obj. exits 0;
  on_delete = λ obj. exits 0;
}

-- cache.FilteringResourceEventHandler
pub record FilteringHandler : Type 0 where
  pub filter : Option ObjectMeta → Bool
  pub handler : ResourceEventHandler

unfoldable pub new_handler : List String → FilteringHandler
unfolding restart_filter restart_resource_handler
new_handler names = record { filter = restart_filter names; handler = restart_resource_handler }

-- What main does to the rest of the program, in order: it registers an informer, adds a handler to the
-- informer of the definitions, runs that informer, and runs the controllers of a component.
pub data Effect : Type 0 where
  registers_informer : GroupVersionResource → Effect
  adds_handler : FilteringHandler → Effect
  runs_crd_informer : Effect
  runs_controllers : String → List Constructor → Effect

-- How main ends: by log.Fatal, in a panic, or when its context is done.
pub data Ending : Type 0 where
  fatal : String → Ending
  panics : Ending
  finishes : Ending

unfoldable pub register_all : List CustomResourceDefinition → List Effect
unfolding gvr_of
register_all [] = []
register_all (crd ∷ items) = registers_informer (gvr_of crd) ∷ register_all items

-- main from the loop over the definitions on.
unfoldable pub run_all :
    List CustomResourceDefinition → Option (List String × List Constructor) → Ending × List Effect
unfolding register_all new_handler
run_all items none = (panics, [])
run_all items (some (names, controllers)) = (
  finishes,
  List.◌++◌ (register_all items) (
      adds_handler (new_handler names)
      ∷ runs_crd_informer
      ∷ runs_controllers "controller" controllers
      ∷ []),
)

unfoldable pub processed : List CustomResourceDefinition → Result EnvConfig → Ending × List Effect
unfolding run_all assemble
processed items (err e) = (fatal ("Error processing environment: " ++ e.message), [])
processed items (ok env) = run_all items (assemble items)

module _ {Config Clientset : Type 0} (lib : Surroundings Config Clientset) where
  unfoldable pub listed : Result (List CustomResourceDefinition) → Ending × List Effect
  unfolding processed
  listed (err e) = (fatal ("Error listing custom resource definitions" ++ e.message), [])
  listed (ok items) = processed items (lib.process "")

  unfoldable pub connected : Option Clientset → Ending × List Effect
  unfolding listed
  connected none = (panics, [])
  connected (some clientset) =
      listed (lib.list_definitions clientset "functions.knative.dev/crd=true")

  unfoldable pub configured : Result Config → Ending × List Effect
  unfolding connected
  configured (err e) = (fatal ("Error building kubeconfig" ++ e.message), [])
  configured (ok cfg) = connected (lib.new_for_config_or_die cfg)

  -- main, by the values of its flags
  unfoldable pub main : String → String → Ending × List Effect
  unfolding configured
  main master_url kubeconfig = configured (lib.get_config master_url kubeconfig)
