-- ===== src/Command/Controllers.antt =====
-- NewController of pkg/reconciler/functions/controller.go and of pkg/reconciler/crds/controller.go:
-- what a constructor makes from its context. The clients and the informers of the other resources
-- come from the context as well; the injection library puts them there.
use Prim.Native.String.{◌++◌}
use knative_functions_contro.Common.{String, Bool, true, Option, none, some, List, [], ◌∷◌}
use knative_functions_contro.Kube.Objects.{GroupVersionResource, ObjectMeta}
use knative_functions_contro.Dynamic.Factory.{Informer}
use knative_functions_contro.Dynamic.Context.{Context, get_informer}
use knative_functions_contro.Command.Main.{
  Constructor, nil_constructor, crd_controller, function_controller, crd_filter, ◌>>=◌,
}

-- The reconciler behind a controller; `resource` is what the dynamic client of a Functions' reconciler
-- reads and writes.
pub data Reconciler : Type 0 where
  crd_reconciler : Reconciler
  function_reconciler : (function_name : String) (resource : GroupVersionResource) → Reconciler

-- The informer that a controller's handler is added to.
pub data Source : Type 0 where
  crd_informer : Source
  dynamic_informer : Informer → Source

-- A *controller.Impl: its reconciler, the name of its queue, the component of its event recorder, and
-- its handler: whose events it gets, and which objects are enqueued.
pub record Controller : Type 0 where
  pub reconciler : Reconciler
  pub queue : String
  pub agent : String
  pub source : Source
  pub enqueues : Option ObjectMeta → Bool

-- crds.NewController
unfoldable pub new_crd_controller : Context → Controller
new_crd_controller ctx = record {
  reconciler = crd_reconciler;
  queue = "crd";
  agent = "crd-controller";
  source = crd_informer;
  enqueues = crd_filter;
}

-- The controller that functions.NewController makes, once the informer has been found.
abbrev pub with_source : GroupVersionResource → Informer → Controller
with_source gvr informer = record {
  reconciler = function_reconciler gvr.resource gvr;
  queue = gvr.resource ++ "-function";
  agent = "functions-controller";
  source = dynamic_informer informer;
  enqueues = λ object. true;
}

-- The function that functions.NewController returns; `none` is the panic of dynamic.Get.
unfoldable pub new_function_controller : GroupVersionResource → Context → Option Controller
unfolding get_informer
new_function_controller gvr ctx = do
  informer ← get_informer ctx gvr
  some (with_source gvr informer)

-- A call of a constructor; that of a nil function panics.
unfoldable pub construct : Constructor → Context → Option Controller
unfolding new_crd_controller new_function_controller
construct nil_constructor ctx = none
construct crd_controller ctx = some (new_crd_controller ctx)
construct (function_controller gvr) ctx = new_function_controller gvr ctx

-- The constructors are called one after the other.
unfoldable pub construct_all : List Constructor → Context → Option (List Controller)
unfolding construct
construct_all [] ctx = some []
construct_all (c ∷ constructors) ctx = do
  controller ← construct c ctx
  controllers ← construct_all constructors ctx
  some (controller ∷ controllers)
