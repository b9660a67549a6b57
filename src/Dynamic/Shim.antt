-- ===== src/Dynamic/Shim.antt =====
-- pkg/dynamic/dynamiclister/shim.go: the listers of unstructured objects as listers of runtime.Objects,
-- and (*dynamicInformer).Lister of pkg/dynamic/dynamicinformer/informer.go.
use Prim.Native.String.{◌++◌}
use mathlib.Core.List
use mathlib.Core.Option
use knative_functions_contro.Common.{
  ℕ, zero, suc, String, ◌≡◌, ◌↔◌, refl, ap, sym, ◌∙◌, Option, none, some, List, [], ◌∷◌, map, Error,
  Result, ok, err, Outcome, returned, failed, panicked,
}
use knative_functions_contro.Kube.Objects.{Unstructured, GroupVersionResource}
use knative_functions_contro.Dynamic.Lister.{
  Item, unstructured, foreign, Selector, Indexer, Listing, NamespaceLister, Lister, append_all,
  collect, check_item, new_lister,
}

-- runtime.Object, an interface: the code puts a *unstructured.Unstructured into it.
pub data RuntimeObject : Type 0 where
  runtime_object : Unstructured → RuntimeObject

-- cache.GenericNamespaceLister and cache.GenericLister. An element of a new slice is a nil interface.
pub record GenericNamespaceLister : Type 0 where
  pub list : Selector → Listing (Option RuntimeObject)
  pub get : String → Outcome RuntimeObject

pub record GenericLister : Type 0 where
  pub list : Selector → Listing (Option RuntimeObject)
  pub get : String → Outcome RuntimeObject
  pub by_namespace : String → GenericNamespaceLister

-- make([]runtime.Object, len(objs))
unfoldable pub make_slice : List Unstructured → List (Option RuntimeObject)
make_slice [] = []
make_slice (obj ∷ objs) = none ∷ make_slice objs

-- ret[index] = obj, which panics out of range (`none`)
unfoldable pub set_at {ℓ} : {A : Type ℓ} → ℕ → A → List A → Option (List A)
set_at i a [] = none
set_at zero a (x ∷ xs) = some (a ∷ xs)
set_at (suc i) a (x ∷ xs) = Option.map (λ ys. x ∷ ys) (set_at i a xs)

-- The loop over objs from an index on.
unfoldable pub fill :
    ℕ → List Unstructured → List (Option RuntimeObject) → Option (List (Option RuntimeObject))
unfolding set_at
fill index [] ret = some ret
fill index (obj ∷ objs) ret = elim (set_at index (some (runtime_object obj)) ret) [
  | none ↦ none
  | some written ↦ fill (suc index) objs written
]

-- The body of both List methods, by what the lister gave.
unfoldable pub shim_list : Listing Unstructured → Listing (Option RuntimeObject)
unfolding fill make_slice
shim_list none = none
shim_list (some (objs, some e)) = some ([], some e)
shim_list (some (objs, none)) = elim (fill 0 objs (make_slice objs)) [
  | none ↦ none
  | some ret ↦ some (ret, none)
]

-- The conversion of the result of Get.
abbrev pub as_runtime_object : Outcome Unstructured → Outcome RuntimeObject
as_runtime_object (returned u) = returned (runtime_object u)
as_runtime_object (failed e) = failed e
as_runtime_object panicked = panicked

unfoldable pub namespace_shim : NamespaceLister → GenericNamespaceLister
unfolding shim_list
namespace_shim lister = record {
  list = λ selector. shim_list (lister.list selector);
  get = λ name. as_runtime_object (lister.get name);
}

-- NewRuntimeObjectShim, with the methods of dynamicListerShim
unfoldable pub new_runtime_object_shim : Lister → GenericLister
unfolding namespace_shim
new_runtime_object_shim lister = record {
  list = λ selector. shim_list (lister.list selector);
  get = λ name. as_runtime_object (lister.get name);
  by_namespace = λ namespace. namespace_shim (lister.in_namespace namespace);
}

-- (*dynamicInformer).Lister
unfoldable pub informer_lister :
    (String → String → String → Error) → Indexer → GroupVersionResource → GenericLister
unfolding new_lister new_runtime_object_shim
informer_lister new_not_found indexer gvr =
    new_runtime_object_shim (new_lister new_not_found indexer gvr)

-- The loop does not look at what stands before the index.
fill_behind :
    (index : ℕ) (objs : List Unstructured) (x : Option RuntimeObject)
    (xs : List (Option RuntimeObject))
    → fill (suc index) objs (x ∷ xs) ≡ Option.map (λ ys. x ∷ ys) (fill index objs xs)
unfolding fill set_at
fill_behind index [] x xs = refl
fill_behind index (obj ∷ objs) x xs =
    after (set_at index (some (runtime_object obj)) xs) (fill_behind (suc index) objs x)
  where
    after :
        (o : Option (List (Option RuntimeObject)))
        → ((w : List (Option RuntimeObject))
            → fill (suc (suc index)) objs (x ∷ w)
              ≡ Option.map (λ ys. x ∷ ys) (fill (suc index) objs w))
        → elim (Option.map (λ ys. x ∷ ys) o) [
          | none ↦ none
          | some w ↦ fill (suc (suc index)) objs w
        ]
          ≡ Option.map (λ ys. x ∷ ys) (elim o [ none ↦ none | some w ↦ fill (suc index) objs w ])
    after none h = refl
    after (some w) h = h w

abbrev pub objects : List Unstructured → List (Option RuntimeObject)
objects us = map (λ u. some (runtime_object u)) us

fill_all : (objs : List Unstructured) → fill 0 objs (make_slice objs) ≡ some (objects objs)
unfolding fill make_slice set_at
fill_all [] = refl
fill_all (obj ∷ objs) =
    fill_behind 0 objs (some (runtime_object obj)) (make_slice objs)
    ∙ ap (Option.map (λ ys. some (runtime_object obj) ∷ ys)) (fill_all objs)

append_all-unstructured :
    (ret us : List Unstructured) → append_all ret (map unstructured us) ≡ some (List.◌++◌ ret us)
unfolding append_all
append_all-unstructured ret [] = ap some (sym (List.append-nil ret))
append_all-unstructured ret (u ∷ us) =
    append_all-unstructured (List.◌++◌ ret (u ∷ [])) us
    ∙ ap some (List.append_assoc ret (u ∷ []) us)

-- What a lister with its shim gives for what the indexer hands over.
shim_list-collect :
    (us : List Unstructured) (e : Option Error)
    → shim_list (collect (map unstructured us, e))
      ≡ some (elim e [ none ↦ objects us | some _ ↦ [] ], e)
unfolding shim_list collect
shim_list-collect us none =
    rw (collect, append_all-unstructured [] us, shim_list, fill_all us, shim_list)
shim_list-collect us (some x) = rw (collect, append_all-unstructured [] us, shim_list)

module _ (new_not_found : String → String → String → Error) (indexer : Indexer)
    (gvr : GroupVersionResource) where
  -- Where the indexer holds unstructured objects only, the List of an informer's lister, and that of
  -- its namespaces, never panics: it gives every object that the indexer hands over, in that order, or
  -- no object and the indexer's error.
  pub informer_lister-list :
      (selector : Selector) (namespace : String) (us vs : List Unstructured) (e f : Option Error)
      → indexer.list_all selector ≡ (map unstructured us, e)
      → indexer.list_all_by_namespace namespace selector ≡ (map unstructured vs, f)
      → let lister = informer_lister new_not_found indexer gvr in
        (lister.list selector ≡ some (elim e [ none ↦ objects us | some _ ↦ [] ], e))
        × ((lister.by_namespace namespace).list selector
            ≡ some (elim f [ none ↦ objects vs | some _ ↦ [] ], f))
  unfolding informer_lister
  informer_lister-list selector namespace us vs e f h k = (
    ap (λ l. shim_list (collect l)) h ∙ shim_list-collect us e,
    ap (λ l. shim_list (collect l)) k ∙ shim_list-collect vs f,
  )

  got :
      (missing other : Error) (r : Result (Option Item)) (o : RuntimeObject)
      → as_runtime_object (check_item missing r) ≡ returned o
      → as_runtime_object (check_item other r) ≡ returned o
  unfolding check_item
  got missing other (err e) o h = h
  got missing other (ok none) o h = cc
  got missing other (ok (some (unstructured u))) o h = h
  got missing other (ok (some foreign)) o h = h

  -- An object is got by its name from the lister of its namespace just when it is got from the lister
  -- of the cluster by the joined name, namespace/name.
  pub informer_lister-get :
      (namespace name : String) (o : RuntimeObject)
      → let lister = informer_lister new_not_found indexer gvr in
        ((lister.by_namespace namespace).get name ≡ returned o)
        ↔ (lister.get (namespace ++ "/" ++ name) ≡ returned o)
  unfolding informer_lister
  informer_lister-get namespace name o = (got _ _ _ o, got _ _ _ o)
