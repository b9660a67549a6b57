-- ===== src/Command/Assembly.antt =====
-- What main of cmd/controller/main.go assembles from the definitions that it lists.
use mathlib.Core.Option
use knative_functions_contro.Common.{
  if◌then◌else◌, ℕ, suc, String, ◌≡◌, refl, sym, ap, ◌∙◌, arith, Bool, true, false, not, ◌&&◌, ◌||◌,
  Option, none, some, List, [], ◌∷◌, map, ◌==◌,
}
use knative_functions_contro.Kube.Objects.{
  CustomResourceDefinition, GroupVersionResource, ObjectMeta,
}
use knative_functions_contro.Dynamic.Factory.{
  same_gvr, find, Informer, Factory, new_factory, for_resource,
}
use knative_functions_contro.Dynamic.Started.{is_some, find-for_resource}
use knative_functions_contro.Dynamic.Context.{
  Context, with_informer_factory, with_informer, get_informer,
}
use knative_functions_contro.Dynamic.Shim.{set_at}
use knative_functions_contro.Command.Main.{
  Constructor, nil_constructor, crd_controller, function_controller, gvr_of, make_slice, Slices,
  assign, assign_all, assemble, ◌>>=◌, inject_all, is_new, restart_filter, crd_filter,
}

-- A name and a controller in front of the slices.
abbrev behind : String → Constructor → Slices → Slices
behind n c (ns, cs) = (n ∷ ns, c ∷ cs)

-- The loop does not look at what stands before the index.
assign-behind :
    (i : ℕ) (crd : CustomResourceDefinition) (n : String) (c : Constructor) (ns : List String)
    (cs : List Constructor)
    → assign (suc i) crd (n ∷ ns, c ∷ cs) ≡ Option.map (behind n c) (assign i crd (ns, cs))
unfolding assign set_at
assign-behind i crd n c ns cs = ground arith

assign_all-behind :
    (i : ℕ) (items : List CustomResourceDefinition) (n : String) (c : Constructor) (s : Slices)
    → assign_all (suc i) items (behind n c s) ≡ Option.map (behind n c) (assign_all i items s)
unfolding assign_all
assign_all-behind i [] n c s = refl
assign_all-behind i (crd ∷ items) n c (ns, cs) =
    rw (assign-behind i crd n c ns cs)
      (after (assign i crd (ns, cs)) (assign_all-behind (suc i) items n c))
  where
    after :
        (o : Option Slices)
        → ((s : Slices)
            → assign_all (suc (suc i)) items (behind n c s)
              ≡ Option.map (behind n c) (assign_all (suc i) items s))
        → (Option.map (behind n c) o >>= assign_all (suc (suc i)) items)
          ≡ Option.map (behind n c) (o >>= assign_all (suc i) items)
    after none h = refl
    after (some s) h = h s

assign_all-slices :
    (items : List CustomResourceDefinition) (c : Constructor)
    → assign_all 0 items (make_slice "" items, c ∷ make_slice nil_constructor items)
      ≡ some (
        map (λ crd. crd.meta.name) items,
        c ∷ map (λ crd. function_controller (gvr_of crd)) items,
      )
unfolding assign_all make_slice set_at
assign_all-slices [] c = refl
assign_all-slices (crd ∷ items) c =
    assign_all-behind 0 items crd.meta.name c
      (make_slice "" items, function_controller (gvr_of crd) ∷ make_slice nil_constructor items)
    ∙ ap (Option.map (behind crd.meta.name c))
        (assign_all-slices items (function_controller (gvr_of crd)))

-- For whatever definitions are listed, main fills both slices without an index out of range: the
-- names are those of the definitions, and the controllers are the one for the definitions followed by
-- one for each definition's resource, in the order of the list. No controller is left nil.
pub assemble-all :
    (items : List CustomResourceDefinition)
    → assemble items
      ≡ some (
        map (λ crd. crd.meta.name) items,
        crd_controller ∷ map (λ crd. function_controller (gvr_of crd)) items,
      )
unfolding assemble
assemble-all items = assign_all-slices items crd_controller

-- Whether a definition of that name was listed.
abbrev pub is_loaded : List CustomResourceDefinition → String → Bool
is_loaded [] name = false
is_loaded (crd ∷ items) name = (crd.meta.name == name) || is_loaded items name

is_new-loaded :
    (items : List CustomResourceDefinition) (name : String)
    → is_new (map (λ crd. crd.meta.name) items) name ≡ not (is_loaded items name)
unfolding is_new
is_new-loaded [] name = refl
is_new-loaded (crd ∷ items) name = ground (arith, is_new-loaded items name)

-- With the names that main assembled, an event restarts the program just if its object is one that
-- the CRD controller handles and its name is not that of a definition that was listed at the start.
pub restart_filter-assembled :
    (items : List CustomResourceDefinition) (names : List String) (controllers : List Constructor)
    (object : ObjectMeta)
    → assemble items ≡ some (names, controllers)
    → restart_filter names (some object)
      ≡ (crd_filter (some object) && not (is_loaded items object.name))
unfolding restart_filter crd_filter
restart_filter-assembled items names controllers object h =
    let e : map (λ (crd : CustomResourceDefinition). crd.meta.name) items ≡ names =
      cc (assemble-all items, h) in
    rw (sym e) (ground (arith, is_new-loaded items object.name))

-- Whether a definition of that resource was listed.
abbrev pub is_requested : List CustomResourceDefinition → GroupVersionResource → Bool
is_requested [] g = false
is_requested (crd ∷ items) g = same_gvr (gvr_of crd) g || is_requested items g

-- The context carries the informers that the factory holds.
abbrev IsAgreed : Context → Factory → Type 0
IsAgreed ctx f =
    (ctx.has_factory ≡ true)
    × ((g : GroupVersionResource) (i : Informer)
        → get_informer ctx g ≡ some i
        → find g f.informers ≡ some i)

-- The end of an injection that began with a context and a factory.
abbrev Injected : List CustomResourceDefinition → Context → Context × Factory → Type 0
Injected items ctx (ctx', f') =
    IsAgreed ctx' f'
    × ((g : GroupVersionResource)
        → is_some (get_informer ctx' g) ≡ (is_requested items g || is_some (get_informer ctx g)))

inject_one :
    (crd : CustomResourceDefinition) (ctx : Context) (f : Factory)
    → IsAgreed ctx f
    → (s : Context × Factory) × (with_informer (gvr_of crd) (ctx, f) ≡ some s)
      × IsAgreed s.0 s.1
      × ((g : GroupVersionResource)
          → is_some (get_informer s.0 g)
            ≡ (same_gvr (gvr_of crd) g || is_some (get_informer ctx g)))
unfolding with_informer get_informer find
inject_one crd ctx f (has, agreed) = (
  (
    record ctx { informers = (gvr_of crd, (for_resource (gvr_of crd) f).0) ∷ ctx.informers },
    (for_resource (gvr_of crd) f).1,
  ),
  rw has refl,
  (has, λ g j e. ground (arith, e, agreed g j, find-for_resource (gvr_of crd) g f)),
  λ g. ground arith,
)

inject_some :
    (items : List CustomResourceDefinition) (ctx : Context) (f : Factory)
    → IsAgreed ctx f
    → (s : Context × Factory) × (inject_all items (ctx, f) ≡ some s) × Injected items ctx s
unfolding inject_all
inject_some [] ctx f agreed = ((ctx, f), refl, (agreed, λ g. refl))
inject_some (crd ∷ items) ctx f agreed =
    let ((ctx1, f1), e, agreed1, has) = inject_one crd ctx f agreed in
    let (s, e2, (agreed2, has2)) = inject_some items ctx1 f1 agreed1 in
    (s, ap (λ o. o >>= inject_all items) e ∙ e2, (agreed2, λ g. has2 g ∙ ground (arith, has g)))

-- What Get finds, from what is found and held.
found_requested :
    {V : Type 0} (o p : Option V) (b : Bool)
    → is_some o ≡ b
    → ((v : V) → o ≡ some v → p ≡ some v)
    → o ≡ (if b then p else none)
found_requested none p b h agreed = cc h
found_requested (some v) p b h agreed = rw (sym h) (sym (agreed v refl))

-- Where the context has been given a new factory, the informers that main registers can all be
-- injected, without a panic; then Get finds an informer for the resource of every definition that
-- main listed, the informer that the factory holds for it, and none for any other resource.
pub inject_all-get :
    (items : List CustomResourceDefinition) (resync : ℕ)
    → (s : Context × Factory) × (inject_all items
          (with_informer_factory resync (record { has_factory = false; informers = [] }))
        ≡ some s)
      × ((g : GroupVersionResource) → is_some (get_informer s.0 g) ≡ is_requested items g)
      × ((g : GroupVersionResource)
          → get_informer s.0 g ≡ (if is_requested items g then find g s.1.informers else none))
unfolding with_informer_factory get_informer find
inject_all-get items resync =
    let (s, e, ((_, agreed), has)) =
      inject_some items (record { has_factory = true; informers = [] }) (new_factory resync)
        (refl, λ g i h. cc) in
    let found : (g : GroupVersionResource) → is_some (get_informer s.0 g) ≡ is_requested items g =
      λ g. has g ∙ ground arith in
    (s, e, found, λ g. found_requested _ _ _ (found g) (agreed g))
