-- ===== src/Dynamic/Context.antt =====
-- The context values of pkg/dynamic/dynamic.go and pkg/dynamic/factory/factory.go.
use knative_functions_contro.Common.{ℕ, Bool, true, if◌then◌else◌, Option, none, some, List}
use knative_functions_contro.Kube.Objects.{GroupVersionResource}
use knative_functions_contro.Dynamic.Factory.{
  find, put, Informer, Factory, new_factory, for_resource,
}

-- A context.Context, by the values under the two types of key: whether it carries the factory, which
-- is the one of the state, and the informers by their dynamic.Key.
pub record Context : Type 0 where
  pub has_factory : Bool
  pub informers : List (GroupVersionResource × Informer)

-- withInformerFactory
unfoldable pub with_informer_factory : ℕ → Context → Context × Factory
with_informer_factory resync ctx = (record ctx { has_factory = true }, new_factory resync)

-- factory.Get; `none` is its panic.
abbrev pub get_factory : Context × Factory → Option Factory
get_factory (ctx, f) = if ctx.has_factory then some f else none

-- The function that WithInformer returns.
unfoldable pub with_informer : GroupVersionResource → Context × Factory → Option (Context × Factory)
with_informer gvr (ctx, f) = elim (get_factory (ctx, f)) [
  | none ↦ none
  | some factory ↦
      let (informer, f') = for_resource gvr factory in
      some (record ctx { informers = put gvr informer ctx.informers }, f')
]

-- Get; `none` is its panic.
unfoldable pub get_informer : Context → GroupVersionResource → Option Informer
unfolding find
get_informer ctx gvr = find gvr ctx.informers
