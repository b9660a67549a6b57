-- ===== src/Command/Startup.antt =====
-- From the definitions that main lists to the controllers that run.
use mathlib.Core.Path.{subst}
use knative_functions_contro.Common.{
  ℕ, ◌≡◌, refl, sym, ◌∙◌, arith, true, false, none, some, List, [], ◌∷◌, map, String, inl, inr,
  Option-cases,
}
use knative_functions_contro.Kube.Objects.{CustomResourceDefinition, GroupVersionResource}
use knative_functions_contro.Dynamic.Factory.{
  find, Informer, Factory, new_factory, for_resource, namespace_all, DynamicClient, ListOptions,
  list_func, watch_func,
}
use knative_functions_contro.Dynamic.Started.{
  is_some, Steps, stays, goes_on, requests, same_gvr_refl,
}
use knative_functions_contro.Dynamic.Watched.{informer-watches}
use knative_functions_contro.Dynamic.Context.{
  Context, with_informer_factory, with_informer, get_informer,
}
use knative_functions_contro.Command.Main.{
  Constructor, function_controller, gvr_of, assemble, inject_all,
}
use knative_functions_contro.Command.Assembly.{assemble-all, is_requested, inject_all-get}
use knative_functions_contro.Command.Controllers.{
  Controller, function_reconciler, dynamic_informer, new_crd_controller, with_source,
  new_function_controller, construct, construct_all,
}

-- The factory of an injection is reached from the one that it began with.
inject_all-Steps :
    (items : List CustomResourceDefinition) (ctx : Context) (f f0 : Factory) (s : Context × Factory)
    → ctx.has_factory ≡ true
    → inject_all items (ctx, f) ≡ some s
    → Steps f0 f
    → Steps f0 s.1
unfolding inject_all with_informer
inject_all-Steps [] ctx f f0 s has e steps =
    let same : f ≡ s.1 = cc e in subst (Steps f0) same steps
inject_all-Steps (crd ∷ items) ctx f f0 s has e steps =
    let (informer, f') = for_resource (gvr_of crd) f in
    inject_all-Steps items
      (record { has_factory = true; informers = (gvr_of crd, informer) ∷ ctx.informers }) f' f0 s
      refl (rw has at e) (goes_on steps (requests (gvr_of crd)))

is_requested-behind :
    (crd : CustomResourceDefinition) (items : List CustomResourceDefinition)
    → is_requested (crd ∷ items) (gvr_of crd) ≡ true
is_requested-behind crd items = ground (arith, same_gvr_refl (gvr_of crd))

module _ {L V : Type 0} (client : DynamicClient L V) (f : Factory) where
  -- The controller of a definition: it reconciles and writes back the Functions of its resource, and
  -- gets the events of the factory's informer for it, which lists and watches them in all namespaces.
  pub record IsServing (crd : CustomResourceDefinition) (c : Controller) : Type 0 where
    reconciles : c.reconciler ≡ function_reconciler crd.plural (gvr_of crd)
    informer : Informer
    hears : c.source ≡ dynamic_informer informer
    held : find (gvr_of crd) f.informers ≡ some informer
    lists :
        (options : ListOptions)
        → list_func client informer options ≡ client.list (gvr_of crd) namespace_all options
    watches :
        (options : ListOptions)
        → watch_func client informer options ≡ client.watch (gvr_of crd) namespace_all options

  -- One controller for each definition, in their order.
  pub data Serving : List CustomResourceDefinition → List Controller → Type 0 where
    none_left : Serving [] []
    one_more :
        {crd : CustomResourceDefinition} {items : List CustomResourceDefinition} {c : Controller}
        {controllers : List Controller}
        → IsServing crd c
        → Serving items controllers
        → Serving (crd ∷ items) (c ∷ controllers)

  module _ (resync : ℕ) (steps : Steps (new_factory resync) f) (ctx : Context) where
    construct_one :
        (crd : CustomResourceDefinition)
        → is_some (get_informer ctx (gvr_of crd)) ≡ true
        → get_informer ctx (gvr_of crd) ≡ find (gvr_of crd) f.informers
        → (c : Controller) × (construct (function_controller (gvr_of crd)) ctx ≡ some c)
          × IsServing crd c
    unfolding new_function_controller construct new_factory gvr_of
    construct_one crd there same = elim (Option-cases (get_informer ctx (gvr_of crd))) [
      | inl missing ↦ absurd (cc (there, missing))
      | inr (i, e) ↦
          let kept = sym same ∙ e in
          let plain = informer-watches resync namespace_all none client f (gvr_of crd) i in
          (
            with_source (gvr_of crd) i,
            rw e refl,
            record {
              reconciles = refl;
              informer = i;
              hears = refl;
              held = kept;
              lists = λ options. (plain options steps kept).0;
              watches = λ options. (plain options steps kept).1;
            },
          )
    ]

    construct_each :
        (items : List CustomResourceDefinition)
        → ((crd : CustomResourceDefinition)
            → is_requested items (gvr_of crd) ≡ true
            → is_some (get_informer ctx (gvr_of crd)) ≡ true)
        → ((g : GroupVersionResource)
            → is_some (get_informer ctx g) ≡ true
            → get_informer ctx g ≡ find g f.informers)
        → (cs : List Controller) × (construct_all
              (map (λ crd. function_controller (gvr_of crd)) items)
              ctx
            ≡ some cs)
          × Serving items cs
    unfolding construct_all
    construct_each [] there same = ([], refl, none_left)
    construct_each (crd ∷ items) there same =
        let has = there crd (is_requested-behind crd items) in
        let (c, e, serving) = construct_one crd has (same (gvr_of crd) has) in
        let (cs, es, rest) = construct_each items (λ d m. there d (ground (arith, m))) same in
        (c ∷ cs, rw (e, es) refl, one_more serving rest)

-- For whatever definitions are listed, start-up goes through with no panic: the slices are filled, the
-- informers are injected into a context with a new factory, and each constructor returns a controller.
-- These are the one for the definitions, and behind it one for each definition in the order of the
-- list: it reconciles and writes back the Functions of the definition's resource, and its handler is
-- added to the informer that the factory holds for that resource, which lists and watches just that
-- resource in all namespaces.
pub startup-serves :
    {L V : Type 0} (client : DynamicClient L V) (items : List CustomResourceDefinition) (resync : ℕ)
    → (names : List String) × (constructors : List Constructor) × (ctx : Context) × (f : Factory)
      × (controllers : List Controller) × (assemble items ≡ some (names, constructors))
      × (inject_all items
            (with_informer_factory resync (record { has_factory = false; informers = [] }))
          ≡ some (ctx, f))
      × (construct_all constructors ctx ≡ some (new_crd_controller ctx ∷ controllers))
      × Serving client f items controllers
unfolding construct_all construct with_informer_factory
startup-serves client items resync =
    let ((ctx, f), injected, has, same) = inject_all-get items resync in
    let steps =
      inject_all-Steps items (record { has_factory = true; informers = [] }) (new_factory resync)
        (new_factory resync) (ctx, f) refl injected stays in
    let agreed : (g : GroupVersionResource)
        → is_some (get_informer ctx g) ≡ true
        → get_informer ctx g ≡ find g f.informers =
      λ g h. ground (arith, h, has g, same g) in
    let (controllers, made, serving) =
      construct_each client f resync steps ctx items (λ crd h. has (gvr_of crd) ∙ h) agreed in
    (_, _, ctx, f, controllers, assemble-all items, injected, rw made refl, serving)
