-- ===== src/Dynamic/Watched.antt =====
-- What an informer of pkg/dynamic/dynamicinformer/informer.go lists and watches, whatever methods of
-- its factory were called.
use mathlib.Core.Path.{subst}
use knative_functions_contro.Common.{
  ℕ, String, ◌≡◌, refl, sym, ap, ◌∙◌, arith, inl, inr, Bool-cases, Option-cases, Option, none, some,
  List, [], ◌∷◌,
}
use knative_functions_contro.Kube.Objects.{GroupVersionResource}
use knative_functions_contro.Dynamic.Factory.{
  same_gvr, find, Informer, TweakListOptions, ListOptions, DynamicClient, list_func, watch_func,
  tweaked, Factory, new_filtered_factory, for_resource, start_informer, start, namespace_all,
}
use knative_functions_contro.Dynamic.Started.{
  same_gvr-eq, Step, requests, starts, Steps, stays, goes_on, start-informers, find-for_resource,
  same_gvr_refl,
}
use knative_functions_contro.Dynamic.Reached.{new-IsSound, Steps-IsSound}

-- The arguments that the informer was made with: every namespace, the given period and no filter.
pub record IsPlain (resync : ℕ) (i : Informer) : Type 0 where
  pub wide : i.namespace ≡ namespace_all
  pub period : i.resync_period ≡ resync
  pub unfiltered : i.tweak_list_options ≡ none

record IsClusterWide (resync : ℕ) (f : Factory) : Type 0 where
  factory : f.namespace ≡ namespace_all
  default : f.default_resync ≡ resync
  each : (g : GroupVersionResource) (i : Informer) → find g f.informers ≡ some i → IsPlain resync i

for_resource-fields :
    (g : GroupVersionResource) (f : Factory)
    → ((for_resource g f).1.namespace ≡ f.namespace)
      × ((for_resource g f).1.default_resync ≡ f.default_resync)
unfolding for_resource
for_resource-fields g f = ground arith

start-fields :
    (order : List (GroupVersionResource × Informer)) (f : Factory)
    → ((start order f).namespace ≡ f.namespace)
      × ((start order f).default_resync ≡ f.default_resync)
unfolding start start_informer
start-fields [] f = (refl, refl)
start-fields ((g, i) ∷ order) f = ground (arith, start-fields order (start_informer g i f))

module _ (resync : ℕ) where
  for_resource-IsPlain :
      (g : GroupVersionResource) (f : Factory)
      → IsClusterWide resync f
      → IsPlain resync (for_resource g f).0
  unfolding for_resource
  for_resource-IsPlain g f wide = elim (Option-cases (find g f.informers)) [
    | inl new ↦
        rw (new, for_resource)
          (record { wide = wide.factory; period = wide.default; unfiltered = refl })
    | inr (i, e) ↦ rw (e, for_resource) (wide.each g i e)
  ]

  Step-IsClusterWide : {f g : Factory} → Step f g → IsClusterWide resync f → IsClusterWide resync g
  Step-IsClusterWide {f} (requests g) wide = record {
    factory = (for_resource-fields g f).0 ∙ wide.factory;
    default = (for_resource-fields g f).1 ∙ wide.default;
    each = λ h i e. elim (Bool-cases (same_gvr g h)) [
      | inl same ↦
          let it : (for_resource g f).0 ≡ i = ground (arith, same, e, find-for_resource g h f) in
          subst (IsPlain resync) it (for_resource-IsPlain g f wide)
      | inr other ↦ wide.each h i (ground (arith, other, e, find-for_resource g h f))
    ];
  }
  Step-IsClusterWide {f} (starts order same) wide = record {
    factory = (start-fields order f).0 ∙ wide.factory;
    default = (start-fields order f).1 ∙ wide.default;
    each = λ h i e. wide.each h i (ap (find h) (sym (start-informers order f)) ∙ e);
  }

  Steps-IsClusterWide :
      {f g : Factory} → Steps f g → IsClusterWide resync f → IsClusterWide resync g
  Steps-IsClusterWide stays wide = wide
  Steps-IsClusterWide (goes_on steps step) wide =
      Step-IsClusterWide step (Steps-IsClusterWide steps wide)

  module _ (namespace : String) (tweak : Option TweakListOptions) where
    new-IsClusterWide : IsClusterWide resync (new_filtered_factory resync namespace tweak)
    unfolding new_filtered_factory find
    new-IsClusterWide = record { factory = refl; default = refl; each = λ g i h. cc }

    -- An informer that the factory holds for a resource, whatever methods were called, lists and
    -- watches just that resource, in all namespaces.
    pub informer-watches :
        {L V : Type 0} (client : DynamicClient L V) (f : Factory) (g : GroupVersionResource)
        (i : Informer) (options : ListOptions)
        → Steps (new_filtered_factory resync namespace tweak) f
        → find g f.informers ≡ some i
        → (list_func client i options ≡ client.list g namespace_all options)
          × (watch_func client i options ≡ client.watch g namespace_all options)
          × (i.resync_period ≡ resync)
    unfolding list_func watch_func tweaked
    informer-watches client f g i options steps held =
        let plain = (Steps-IsClusterWide steps new-IsClusterWide).each g i held in
        let resource =
          same_gvr-eq i.gvr g
            ((Steps-IsSound steps (new-IsSound resync namespace tweak)).filed g i held) in
        (
          rw (plain.wide, plain.unfiltered, resource) refl,
          rw (plain.wide, plain.unfiltered, resource) refl,
          plain.period,
        )

    -- A factory may be made for one namespace and with a filter of the list options. The informer that
    -- ForResource gives for a resource, whatever methods were called before, nevertheless lists and
    -- watches that resource in all namespaces and with the options as they are, and it has the
    -- factory's resync period.
    pub for_resource-watches :
        {L V : Type 0} (client : DynamicClient L V) (f : Factory) (g : GroupVersionResource)
        (options : ListOptions)
        → Steps (new_filtered_factory resync namespace tweak) f
        → (list_func client (for_resource g f).0 options ≡ client.list g namespace_all options)
          × (watch_func client (for_resource g f).0 options ≡ client.watch g namespace_all options)
          × ((for_resource g f).0.resync_period ≡ resync)
    for_resource-watches client f g options steps =
        informer-watches client (for_resource g f).1 g (for_resource g f).0 options
          (goes_on steps (requests g)) (find-for_resource g g f ∙ rw (same_gvr_refl g))
