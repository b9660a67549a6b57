-- ===== src/Dynamic/Reached.antt =====
-- What holds of a factory of pkg/dynamic/dynamicinformer/informer.go whatever methods were called.
use knative_functions_contro.Common.{
  ℕ, String, ◌≡◌, refl, sym, ap, ◌∙◌, arith, inl, inr, Bool, true, if◌then◌else◌, Bool-cases,
  Option-cases, Option, none, some, List, [], ◌∷◌,
}
use mathlib.Core.Option
use knative_functions_contro.Kube.Objects.{GroupVersionResource}
use knative_functions_contro.Dynamic.Factory.{
  same_gvr, find, Informer, TweakListOptions, Factory, new_filtered_factory, for_resource,
  is_started, start, started_entries, sync_results, wait_for_cache_sync,
}
use knative_functions_contro.Dynamic.Started.{
  count_runs, Step, requests, starts, Steps, stays, goes_on, is_some, IsSound, find_same,
  same_gvr_refl, same_gvr_trans, start-informers, same_started, start-IsSound, find-for_resource,
  started-for_resource,
}

-- What ForResource returns is filed under its own resource.
gvr-for_resource :
    (g : GroupVersionResource) (f : Factory)
    → IsSound f
    → same_gvr (for_resource g f).0.gvr g ≡ true
unfolding for_resource
gvr-for_resource g f sound = elim (Option-cases (find g f.informers)) [
  | inl new ↦ ground (arith, new, same_gvr_refl g)
  | inr (i, e) ↦ ground (arith, e, sound.filed g i e)
]

for_resource-IsSound :
    (g : GroupVersionResource) (f : Factory) → IsSound f → IsSound (for_resource g f).1
for_resource-IsSound g f sound = record {
  filed = λ h i e. elim (Bool-cases (same_gvr g h)) [
    | inl same ↦ ground (
      arith,
      same,
      e,
      find-for_resource g h f,
      gvr-for_resource g f sound,
      same_gvr_trans (for_resource g f).0.gvr g h (gvr-for_resource g f sound),
    )
    | inr other ↦ sound.filed h i (ground (arith, other, e, find-for_resource g h f))
  ];
  known = λ h e.
      ground (arith, e, (started-for_resource g h f).0, find-for_resource g h f, sound.known h);
  counted = λ h.
      ap (count_runs h) (started-for_resource g h f).1
      ∙ sound.counted h
      ∙ ap (λ b. if b then 1 else 0) (sym (started-for_resource g h f).0);
}

Step-IsSound : {f g : Factory} → Step f g → IsSound f → IsSound g
Step-IsSound (requests g) sound = for_resource-IsSound g _ sound
Step-IsSound (starts order same) sound = start-IsSound order _ same sound

pub Steps-IsSound : {f g : Factory} → Steps f g → IsSound f → IsSound g
Steps-IsSound stays sound = sound
Steps-IsSound (goes_on steps step) sound = Step-IsSound step (Steps-IsSound steps sound)

module _ (resync : ℕ) (namespace : String) (tweak : Option TweakListOptions) where
  pub new-IsSound : IsSound (new_filtered_factory resync namespace tweak)
  unfolding new_filtered_factory find count_runs
  new-IsSound = record { filed = λ g i h. cc; known = λ g h. cc; counted = λ g. refl }

  -- After a Start, whatever methods were called on a new factory before, every resource that was asked
  -- for has its informer run exactly once so far, and no informer was run for any other resource.
  pub start-runs_once :
      (f : Factory) (order : List (GroupVersionResource × Informer)) (g : GroupVersionResource)
      → Steps (new_filtered_factory resync namespace tweak) f
      → ((h : GroupVersionResource) → find h order ≡ find h f.informers)
      → count_runs g (start order f).running ≡ (if is_some (find g f.informers) then 1 else 0)
  start-runs_once f order g steps same =
      let sound = Steps-IsSound steps new-IsSound in
      (start-IsSound order f same sound).counted g
      ∙ ap (λ b. if b then 1 else 0) (same_started order f sound same g)

for_resource_known :
    (g : GroupVersionResource) (i : Informer) (f : Factory)
    → find g f.informers ≡ some i
    → for_resource g f ≡ (i, f)
unfolding for_resource
for_resource_known g i f e = rw (for_resource, e)

Step-keeps :
    {f f' : Factory} (g : GroupVersionResource) (i : Informer)
    → Step f f'
    → find g f.informers ≡ some i
    → find g f'.informers ≡ some i
Step-keeps {f} g i (requests h) e = elim (Option-cases (find h f.informers)) [
  | inl new ↦ ground (arith, new, e, find-for_resource h g f, find_same h g f.informers)
  | inr (j, old) ↦
      ap (λ (r : Informer × Factory). find g r.1.informers) (for_resource_known h j f old) ∙ e
]
Step-keeps {f} g i (starts order same) e = ap (find g) (start-informers order f) ∙ e

Steps-keeps :
    {f f' : Factory} (g : GroupVersionResource) (i : Informer)
    → Steps f f'
    → find g f.informers ≡ some i
    → find g f'.informers ≡ some i
Steps-keeps g i stays e = e
Steps-keeps g i (goes_on steps step) e = Step-keeps g i step (Steps-keeps g i steps e)

-- Once a resource has been asked for, ForResource gives the same informer for it, with no change to
-- the factory, whatever methods are called in between.
pub for_resource-keeps :
    (f f' : Factory) (g : GroupVersionResource)
    → Steps (for_resource g f).1 f'
    → for_resource g f' ≡ ((for_resource g f).0, f')
for_resource-keeps f f' g steps =
    for_resource_known g (for_resource g f).0 f'
      (Steps-keeps g _ steps (find-for_resource g g f ∙ rw (same_gvr_refl g)))

find-started_entries :
    (order : List (GroupVersionResource × Informer)) (f : Factory) (g : GroupVersionResource)
    → find g (started_entries order f) ≡ (if is_started g f then find g order else none)
unfolding started_entries find
find-started_entries [] f g = ground arith
find-started_entries ((k, i) ∷ order) f g =
    ground (arith, find-started_entries order f g, find_same k g f.started_informers)

find-sync_results :
    (synced : Informer → Bool) (entries : List (GroupVersionResource × Informer))
    (g : GroupVersionResource)
    → find g (sync_results synced entries) ≡ Option.map synced (find g entries)
unfolding sync_results find
find-sync_results synced [] g = refl
find-sync_results synced ((k, i) ∷ entries) g = ground (arith, find-sync_results synced entries g)

-- WaitForCacheSync reports on exactly the informers that were started, for each whether its cache
-- synced, in whichever order the loops meet the entries.
pub wait_for_cache_sync-find :
    (synced : Informer → Bool) (f : Factory) (order : List (GroupVersionResource × Informer))
    (g : GroupVersionResource)
    → ((h : GroupVersionResource) → find h order ≡ find h f.informers)
    → find g (wait_for_cache_sync synced order f)
      ≡ (if is_started g f then Option.map synced (find g f.informers) else none)
unfolding wait_for_cache_sync
wait_for_cache_sync-find synced f order g same =
    find-sync_results synced (started_entries order f) g
    ∙ ap (Option.map synced) (find-started_entries order f g)
    ∙ ground (arith, same g)
