-- ===== src/Dynamic/Started.antt =====
-- The informers that a factory has made and run, over every sequence of its methods.
use knative_functions_contro.Common.{
  ℕ, suc, ◌≡◌, refl, sym, ap, ◌∙◌, arith, inl, inr, Bool, true, false, ◌||◌, if◌then◌else◌, eq_iff,
  eq_refl, Bool-cases, Option, none, some, List, [], ◌∷◌,
}
use knative_functions_contro.Kube.Objects.{GroupVersionResource}
use knative_functions_contro.Dynamic.Factory.{
  same_gvr, find, Informer, Factory, for_resource, is_started, start_informer, start,
}

-- How many of the informers are for a resource.
unfoldable pub count_runs : GroupVersionResource → List Informer → ℕ
count_runs g [] = 0
count_runs g (i ∷ is) = let rest = count_runs g is in if same_gvr i.gvr g then suc rest else rest

-- One method call. The loop of Start may meet the entries of the map in any order.
pub data Step : Factory → Factory → Type 0 where
  requests : {f : Factory} (g : GroupVersionResource) → Step f (for_resource g f).1
  starts :
      {f : Factory} (order : List (GroupVersionResource × Informer))
      → ((g : GroupVersionResource) → find g order ≡ find g f.informers)
      → Step f (start order f)

-- A sequence of method calls.
pub data Steps : Factory → Factory → Type 0 where
  stays : {f : Factory} → Steps f f
  goes_on : {f g h : Factory} → Steps f g → Step g h → Steps f h

abbrev pub is_some {ℓ} : {A : Type ℓ} → Option A → Bool
is_some none = false
is_some (some _) = true

-- An informer is filed under its own resource, has been run at most once, and has been run just if
-- its resource counts as started.
pub record IsSound (f : Factory) : Type 0 where
  pub filed :
      (g : GroupVersionResource) (i : Informer)
      → find g f.informers ≡ some i
      → same_gvr i.gvr g ≡ true
  pub known :
      (g : GroupVersionResource) → is_started g f ≡ true → is_some (find g f.informers) ≡ true
  pub counted :
      (g : GroupVersionResource) → count_runs g f.running ≡ (if is_started g f then 1 else 0)

pub same_gvr-eq : (a b : GroupVersionResource) → same_gvr a b ≡ true → a ≡ b
same_gvr-eq a b h =
    ground
      (arith, h, eq_iff a.group b.group, eq_iff a.version b.version, eq_iff a.resource b.resource)

pub same_gvr_trans :
    (a b c : GroupVersionResource) → same_gvr a b ≡ true → same_gvr a c ≡ same_gvr b c
same_gvr_trans a b c h = ap (λ g. same_gvr g c) (same_gvr-eq a b h)

pub same_gvr_refl : (a : GroupVersionResource) → same_gvr a a ≡ true
same_gvr_refl a = ground (arith, eq_refl a.group, eq_refl a.version, eq_refl a.resource)

pub find_same :
    {V : Type 0} (a b : GroupVersionResource) (m : List (GroupVersionResource × V))
    → same_gvr a b ≡ true
    → find a m ≡ find b m
find_same a b m h = ap (λ g. find g m) (same_gvr-eq a b h)

-- The informers stay when one is started.
start_informer-informers :
    (g : GroupVersionResource) (i : Informer) (f : Factory)
    → (start_informer g i f).informers ≡ f.informers
unfolding start_informer
start_informer-informers g i f = ground arith

pub start-informers :
    (order : List (GroupVersionResource × Informer)) (f : Factory)
    → (start order f).informers ≡ f.informers
unfolding start
start-informers [] f = refl
start-informers ((g, i) ∷ order) f =
    start-informers order (start_informer g i f) ∙ start_informer-informers g i f

is_started-start_informer :
    (g h : GroupVersionResource) (i : Informer) (f : Factory)
    → is_started h (start_informer g i f) ≡ (if same_gvr g h then true else is_started h f)
unfolding start_informer find
is_started-start_informer g h i f = ground (arith, find_same g h f.started_informers)

counted-start_informer :
    (g : GroupVersionResource) (i : Informer) (f : Factory)
    → (is_started g f ≡ false → same_gvr i.gvr g ≡ true)
    → ((h : GroupVersionResource) → count_runs h f.running ≡ (if is_started h f then 1 else 0))
    → (h : GroupVersionResource)
    → count_runs h (start_informer g i f).running
      ≡ (if is_started h (start_informer g i f) then 1 else 0)
unfolding start_informer count_runs find
counted-start_informer g i f filed counted h = elim (Bool-cases (is_started g f)) [
  | inl already ↦ simp already (counted h)
  | inr fresh ↦ ground (
    arith,
    filed fresh,
    fresh,
    counted h,
    same_gvr_trans i.gvr g h (filed fresh),
    find_same g h f.started_informers,
  )
]

is_started-start :
    (order : List (GroupVersionResource × Informer)) (f : Factory) (h : GroupVersionResource)
    → is_started h (start order f) ≡ (is_started h f || is_some (find h order))
unfolding start find
is_started-start [] f h = ground arith
is_started-start ((g, i) ∷ order) f h =
    is_started-start order (start_informer g i f) h
    ∙ ground (arith, is_started-start_informer g h i f)

-- The loop of Start, where the entries that it starts are filed under their resource.
counted-start :
    (order : List (GroupVersionResource × Informer)) (f : Factory)
    → ((h : GroupVersionResource) (i : Informer)
        → find h order ≡ some i
        → is_started h f ≡ false
        → same_gvr i.gvr h ≡ true)
    → ((h : GroupVersionResource) → count_runs h f.running ≡ (if is_started h f then 1 else 0))
    → (h : GroupVersionResource)
    → count_runs h (start order f).running ≡ (if is_started h (start order f) then 1 else 0)
unfolding start find
counted-start [] f filed counted = counted
counted-start ((g, i) ∷ order) f filed counted =
    counted-start order (start_informer g i f)
      (λ h j there fresh.
        filed h j (ground (arith, there, fresh, is_started-start_informer g h i f))
          (ground (arith, fresh, is_started-start_informer g h i f)))
      (counted-start_informer g i f (filed g i (ground (arith, same_gvr_refl g))) counted)

pub same_started :
    (order : List (GroupVersionResource × Informer)) (f : Factory)
    → IsSound f
    → ((g : GroupVersionResource) → find g order ≡ find g f.informers)
    → (h : GroupVersionResource) → is_started h (start order f) ≡ is_some (find h f.informers)
same_started order f sound same h =
    ground (arith, is_started-start order f h, same h, sound.known h)

pub start-IsSound :
    (order : List (GroupVersionResource × Informer)) (f : Factory)
    → ((g : GroupVersionResource) → find g order ≡ find g f.informers)
    → IsSound f
    → IsSound (start order f)
start-IsSound order f same sound = record {
  filed = λ g i h. sound.filed g i (ap (find g) (sym (start-informers order f)) ∙ h);
  known = λ g h.
      ap (λ m. is_some (find g m)) (start-informers order f)
      ∙ sym (same_started order f sound same g)
      ∙ h;
  counted =
      counted-start order f (λ h i there fresh. sound.filed h i (sym (same h) ∙ there))
        sound.counted;
}

-- The informers after a call of ForResource.
pub find-for_resource :
    (g h : GroupVersionResource) (f : Factory)
    → find h (for_resource g f).1.informers
      ≡ (if same_gvr g h then some (for_resource g f).0 else find h f.informers)
unfolding for_resource find
find-for_resource g h f = ground (arith, find_same g h f.informers)

pub started-for_resource :
    (g h : GroupVersionResource) (f : Factory)
    → (is_started h (for_resource g f).1 ≡ is_started h f)
      × ((for_resource g f).1.running ≡ f.running)
unfolding for_resource
started-for_resource g h f = ground arith
