-- ===== src/Duck/SharedCount.antt =====
-- DeepCopy of a FunctionList of pkg/apis/duck/v1alpha1/zz_generated.deepcopy.go.
use mathlib.Core.Option
use knative_functions_contro.Common.{
  ℕ, ◌≤◌, ◌<◌, ◌≡◌, refl, sym, ap, ◌∙◌, arith, Option, none, some, List, [],
}
use knative_functions_contro.Kube.Objects.{TypeMeta, ListMeta}
use knative_functions_contro.Duck.Types.{Function, FunctionList}
use knative_functions_contro.Duck.Memory.{
  FunctionStruct, ListMetaStruct, ListStruct, Cell, count_cell, array_cell, list_cell, Memory,
  write, new_cell,
}
use knative_functions_contro.Duck.DeepCopy.{
  array_of, list_of, copy_items, copy_slice, list_deep_copy_into, list_deep_copy,
}
use knative_functions_contro.Duck.Copies.{
  set_cell-same, set_cell-other, Extends, Extends-trans, Twin-later, new_cell-Extends,
  new_cell-holds,
}
use knative_functions_contro.Duck.Structs.{AreBelow, ItemsTwin, ItemsTwin-map, copy_items-Copied}
use knative_functions_contro.Duck.Isolation.{write-Twin}
use knative_functions_contro.Duck.Contents.{
  Cells, count_of, pointed, items_contents, items_contents-Twin,
}

abbrev meta_from : ListMetaStruct → Option (Option ℕ) → Option ListMeta
meta_from meta none = none
meta_from meta (some count) = some (record {
  self_link = meta.self_link;
  resource_version = meta.resource_version;
  continue_token = meta.continue_token;
  remaining_item_count = count;
})

-- The items of a slice; those of a nil slice are none.
abbrev slice_of : Cells → Option (List FunctionStruct) → Option (List Function)
slice_of cells none = none
slice_of cells (some items) = items_contents cells items

abbrev slice_contents : Cells → Option ℕ → Option (List Function)
slice_contents cells none = some []
slice_contents cells (some p) = slice_of cells (array_of (cells p))

abbrev list_from : TypeMeta → Option ListMeta → Option (List Function) → Option FunctionList
list_from type_meta (some meta) (some items) =
    some (record { type_meta = type_meta; meta = meta; items = items })
list_from type_meta _ _ = none

abbrev list_contents : Cells → ListStruct → Option FunctionList
list_contents cells l =
    list_from l.type_meta (meta_from l.meta (pointed count_of cells l.meta.remaining_item_count))
      (slice_contents cells l.items)

abbrev behind : Cells → Option ListStruct → Option FunctionList
behind cells none = none
behind cells (some l) = list_contents cells l

-- What a pointer to a FunctionList reads as.
abbrev pub list_at : Memory → ℕ → Option FunctionList
list_at m p = behind m.cells (list_of (m.cells p))

-- The same list with another count.
abbrev pub with_count : ℕ → FunctionList → FunctionList
with_count n fns = record fns { meta = record (fns.meta) { remaining_item_count = some n } }

list_from-with_count :
    (type_meta : TypeMeta) (meta : ListMetaStruct) (o : Option (Option ℕ))
    (items : Option (List Function)) (fns : FunctionList) (n : ℕ)
    → list_from type_meta (meta_from meta o) items ≡ some fns
    → list_from type_meta (meta_from meta (some (some n))) items ≡ some (with_count n fns)
list_from-with_count type_meta meta none items fns n h = cc h
list_from-with_count type_meta meta (some o) none fns n h = cc h
list_from-with_count type_meta meta (some o) (some items) fns n h =
    let same : list_from type_meta (meta_from meta (some o)) (some items) ≡ some fns = h in
    ap (Option.map (with_count n)) same

-- A FunctionList in memory, with a slice of items.
pub record IsListAt (m : Memory) (p s : ℕ) (l : ListStruct) (fs : List FunctionStruct)
    : Type 0 where
  pub source : m.cells p ≡ some (list_cell l)
  pub slice : l.items ≡ some s
  pub array : m.cells s ≡ some (array_cell fs)
  pub below : AreBelow m.next fs

-- Its copy, in a memory that has gone on.
record IsListCopy (m m' : Memory) (q r : ℕ) (l : ListStruct) (fs : List FunctionStruct)
    : Type 0 where
  low_list : m.next ≤ q
  target : m'.cells q ≡ some (list_cell (record l { items = some r }))
  low_array : m.next ≤ r
  outs : List FunctionStruct
  array : m'.cells r ≡ some (array_cell outs)
  twin : ItemsTwin m m' fs outs

list_deep_copy-IsListCopy :
    (m : Memory) (p s : ℕ) (l : ListStruct) (fs : List FunctionStruct)
    → IsListAt m p s l fs
    → (q : ℕ) × (r : ℕ) × (m' : Memory) × Extends m m'
      × (list_deep_copy (some p) m ≡ some (some q, m'))
      × IsListCopy m m' q r l fs
unfolding list_deep_copy list_deep_copy_into copy_slice
list_deep_copy-IsListCopy m p s l fs at =
    let (outs, m1) = copy_items fs m in
    let (e1, twin) = copy_items-Copied fs m at.below in
    let (r, m2) = new_cell (some (array_cell outs)) m1 in
    let (held, low, high) = new_cell-holds (some (array_cell outs)) m1 in
    let e2 = new_cell-Extends (some (array_cell outs)) m1 in
    let copy = list_cell (record l { items = some r }) in
    let (held2, low2, _) = new_cell-holds (some copy) m2 in
    let e3 = new_cell-Extends (some copy) m2 in
    (
      (new_cell (some copy) m2).0,
      r,
      (new_cell (some copy) m2).1,
      Extends-trans e1 (Extends-trans e2 e3),
      rw (at.source, list_deep_copy, at.slice, list_deep_copy_into, at.array, copy_slice) refl,
      record {
        low_list = omega (arith, e1.grown, e2.grown, low2);
        target = held2;
        low_array = omega (arith, e1.grown, low);
        outs = outs;
        array = e3.kept r high ∙ held;
        twin = ItemsTwin-map (λ x y. Twin-later (Extends-trans e2 e3)) twin;
      },
    )

module _ {m m' : Memory} {q r : ℕ} {l : ListStruct} {fs : List FunctionStruct}
    (copy : IsListCopy m m' q r l fs) where
  list_at-IsListCopy :
      list_at m' q
      ≡ list_from l.type_meta
          (meta_from l.meta (pointed count_of m'.cells l.meta.remaining_item_count))
          (items_contents m.cells fs)
  list_at-IsListCopy = rw (copy.target, copy.array, items_contents-Twin copy.twin) refl

  IsListCopy-write : (a : ℕ) (c : Cell) → a < m.next → IsListCopy m (write a c m') q r l fs
  IsListCopy-write a c h = record {
    low_list = copy.low_list;
    target =
        set_cell-other a q (some c) m'.cells (λ same. omega (arith, h, copy.low_list, same))
        ∙ copy.target;
    low_array = copy.low_array;
    outs = copy.outs;
    array =
        set_cell-other a r (some c) m'.cells (λ same. omega (arith, h, copy.low_array, same))
        ∙ copy.array;
    twin = ItemsTwin-map (write-Twin {m = m} {m' = m'} a c h) copy.twin;
  }

list_at-IsListAt :
    {m : Memory} {p s : ℕ} {l : ListStruct} {fs : List FunctionStruct}
    → IsListAt m p s l fs
    → list_at m p
      ≡ list_from l.type_meta
          (meta_from l.meta (pointed count_of m.cells l.meta.remaining_item_count))
          (items_contents m.cells fs)
list_at-IsListAt at = rw (at.source, at.slice, at.array) refl

-- A pointer leads to a FunctionList with a slice of items, whose pointers lead to addresses that have
-- been given out, and its RemainingItemCount leads to one of them too. Then DeepCopy returns a pointer
-- behind which the list reads as it did before; but the count is shared: after a write of another
-- count through the pointer of the original, the copy has that count as well, and is the same
-- otherwise.
pub list_deep_copy-shares_count :
    (m : Memory) (p s a n : ℕ) (l : ListStruct) (fs : List FunctionStruct) (fns : FunctionList)
    → IsListAt m p s l fs
    → l.meta.remaining_item_count ≡ some a
    → a < m.next
    → list_at m p ≡ some fns
    → (q : ℕ) × (m' : Memory) × (list_deep_copy (some p) m ≡ some (some q, m'))
      × (list_at m' q ≡ some fns)
      × (list_at (write a (count_cell n) m') q ≡ some (with_count n fns))
list_deep_copy-shares_count m p s a n l fs fns at counted in_use reads =
    let (q, r, m', extends, made, copy) = list_deep_copy-IsListCopy m p s l fs at in
    let before = sym (list_at-IsListAt at) ∙ reads in
    let counted_list : Option (Option ℕ) → Option FunctionList =
      λ o. list_from l.type_meta (meta_from l.meta o) (items_contents m.cells fs) in
    let counted_as : (cells : Cells)
        → pointed count_of cells l.meta.remaining_item_count
          ≡ Option.map some (count_of (cells a)) =
      λ cells. ap (pointed count_of cells) counted in
    let count : Option Cell → Option (Option ℕ) = λ c. Option.map some (count_of c) in
    (
      q,
      m',
      made,
      list_at-IsListCopy copy
          ∙ ap counted_list
              (counted_as m'.cells ∙ ap count (extends.kept a in_use) ∙ sym (counted_as m.cells))
          ∙ before,
      list_at-IsListCopy (IsListCopy-write copy a (count_cell n) in_use)
          ∙ ap counted_list
              (counted_as _ ∙ ap count (set_cell-same a (some (count_cell n)) m'.cells))
          ∙ list_from-with_count l.type_meta l.meta _ (items_contents m.cells fs) fns n before,
    )
