-- ===== src/Command/Main.antt =====
-- cmd/controller/main.go: the controllers that main assembles, and when its handler restarts the
-- program. The event filter of pkg/reconciler/crds/controller.go is here too.
use knative_functions_contro.Common.{
  ℕ, suc, String, Bool, true, false, Option, none, some, List, [], ◌∷◌, ◌==◌, if◌then◌else◌,
  lookup_nil,
}
use knative_functions_contro.Kube.Objects.{
  CustomResourceDefinition, GroupVersionResource, ObjectMeta,
}
use knative_functions_contro.Dynamic.Factory.{Factory}
use knative_functions_contro.Dynamic.Context.{Context, with_informer}
use knative_functions_contro.Dynamic.Shim.{set_at}

-- injection.ControllerConstructor: crds.NewController or functions.NewController(gvr). An element of
-- a new slice is nil.
pub data Constructor : Type 0 where
  nil_constructor crd_controller : Constructor
  function_controller : GroupVersionResource → Constructor

unfoldable pub gvr_of : CustomResourceDefinition → GroupVersionResource
gvr_of crd = record { group = crd.group; version = crd.version; resource = crd.plural }

-- make([]T, len(defs.Items)), by the element that T's zero value is
unfoldable pub make_slice : {A : Type 0} → A → List CustomResourceDefinition → List A
make_slice a [] = []
make_slice a (crd ∷ items) = a ∷ make_slice a items

infixl 5 ◌>>=◌
abbrev pub ◌>>=◌ : {A B : Type 0} → Option A → (A → Option B) → Option B
none >>= f = none
(some a) >>= f = f a

-- The slices of names and of controllers.
abbrev pub Slices : Type 0
Slices = List String × List Constructor

-- `names[i] = crd.Name` and `controllers[i+1] = functions.NewController(gvr)`
unfoldable pub assign : ℕ → CustomResourceDefinition → Slices → Option Slices
unfolding set_at gvr_of
assign i crd (names, controllers) = do
  ns ← set_at i crd.meta.name names
  cs ← set_at (suc i) (function_controller (gvr_of crd)) controllers
  some (ns, cs)

-- The loop over the definitions from an index on; `none` is the panic of an index out of range.
unfoldable pub assign_all : ℕ → List CustomResourceDefinition → Slices → Option Slices
unfolding assign
assign_all i [] slices = some slices
assign_all i (crd ∷ items) slices = do next ← assign i crd slices; assign_all (suc i) items next

-- The names and the controllers, from the definitions that the API server listed.
unfoldable pub assemble : List CustomResourceDefinition → Option Slices
unfolding assign_all make_slice
assemble items =
    assign_all 0 items (make_slice "" items, crd_controller ∷ make_slice nil_constructor items)

-- The informers that the loop registers, injected into a context one after the other.
unfoldable pub inject_all :
    List CustomResourceDefinition → Context × Factory → Option (Context × Factory)
unfolding with_informer gvr_of
inject_all [] state = some state
inject_all (crd ∷ items) state = do next ← with_informer (gvr_of crd) state; inject_all items next

abbrev pub crd_label : String
crd_label = "functions.knative.dev/crd"

-- The loop over the names.
unfoldable pub is_new : List String → String → Bool
is_new [] object = true
is_new (name ∷ names) object = if name == object then false else is_new names object

-- The FilterFunc of newHandler: the metadata of the object, if it is a metav1.Object.
unfoldable pub restart_filter : List String → Option ObjectMeta → Bool
unfolding is_new
restart_filter names none = false
restart_filter names (some object) = elim (lookup_nil crd_label object.labels) [
  | none ↦ false
  | some v ↦ if v == "true" then is_new names object.name else false
]

-- The FilterFunc of crds.NewController.
unfoldable pub crd_filter : Option ObjectMeta → Bool
crd_filter none = false
crd_filter (some object) = elim (lookup_nil crd_label object.labels) [
  | none ↦ false
  | some v ↦ v == "true"
]
