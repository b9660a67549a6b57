-- ===== src/Duck/DeepCopy.antt =====
-- pkg/apis/duck/v1alpha1/zz_generated.deepcopy.go. A DeepCopyInto is a function from the struct `*in` to
-- the struct `*out`; the two pointers are different. `none` is a pointer that leads to no such struct,
-- which Go's types exclude.
use knative_functions_contro.Common.{ℕ, Option, none, some, List, [], ◌∷◌}
use knative_functions_contro.Duck.Memory.{
  StatusStruct, FunctionStruct, ListStruct, Cell, array_cell, status_cell, function_cell, list_cell,
  Memory, new_cell, copy_cell, copy_pointer,
}

-- (*FunctionStatus).DeepCopyInto
unfoldable pub status_deep_copy_into : StatusStruct → Memory → StatusStruct × Memory
unfolding copy_cell copy_pointer
status_deep_copy_into source m =
    let (base, m1) = copy_cell source.base m in
    let (address, m2) = copy_pointer source.address m1 in
    let (url, m3) = copy_pointer source.url m2 in
    (record source { base = base; address = address; url = url }, m3)

-- (*Function).DeepCopyInto
unfoldable pub function_deep_copy_into : FunctionStruct → Memory → FunctionStruct × Memory
unfolding copy_cell copy_pointer status_deep_copy_into
function_deep_copy_into source m =
    let (meta, m1) = copy_cell source.meta m in
    let (spec, m2) = copy_pointer source.spec m1 in
    let (status, m3) = status_deep_copy_into source.status m2 in
    (record source { meta = meta; spec = spec; status = status }, m3)

-- The loop over the items.
unfoldable pub copy_items : List FunctionStruct → Memory → List FunctionStruct × Memory
unfolding function_deep_copy_into
copy_items [] m = ([], m)
copy_items (source ∷ items) m =
    let (out, m1) = function_deep_copy_into source m in
    let (outs, m2) = copy_items items m1 in (out ∷ outs, m2)

-- The items of a slice, by what its pointer leads to.
abbrev pub array_of : Option Cell → Option (List FunctionStruct)
array_of (some (array_cell items)) = some items
array_of _ = none

-- The part of (*FunctionList).DeepCopyInto on the items.
unfoldable pub copy_slice : Option ℕ → Memory → Option (Option ℕ × Memory)
unfolding copy_items new_cell
copy_slice none m = some (none, m)
copy_slice (some p) m = elim (array_of (m.cells p)) [
  | none ↦ none
  | some items ↦
      let (outs, m1) = copy_items items m in
      let (q, m2) = new_cell (some (array_cell outs)) m1 in some (some q, m2)
]

-- (*FunctionList).DeepCopyInto
unfoldable pub list_deep_copy_into : ListStruct → Memory → Option (ListStruct × Memory)
unfolding copy_slice
list_deep_copy_into source m = elim (copy_slice source.items m) [
  | none ↦ none
  | some (items, m') ↦ some (record source { items = items }, m')
]

abbrev pub status_of : Option Cell → Option StatusStruct
status_of (some (status_cell source)) = some source
status_of _ = none

abbrev pub function_of : Option Cell → Option FunctionStruct
function_of (some (function_cell source)) = some source
function_of _ = none

abbrev pub list_of : Option Cell → Option ListStruct
list_of (some (list_cell source)) = some source
list_of _ = none

-- A new struct in memory, and the pointer to it.
abbrev pub returned_pointer : {A : Type 0} → (A → Cell) → A × Memory → Option (Option ℕ × Memory)
returned_pointer cell (out, m) = let (q, m') = new_cell (some (cell out)) m in some (some q, m')

-- (*FunctionStatus).DeepCopy
unfoldable pub status_deep_copy : Option ℕ → Memory → Option (Option ℕ × Memory)
unfolding status_deep_copy_into new_cell
status_deep_copy none m = some (none, m)
status_deep_copy (some p) m = elim (status_of (m.cells p)) [
  | none ↦ none
  | some source ↦ returned_pointer status_cell (status_deep_copy_into source m)
]

-- (*Function).DeepCopy
unfoldable pub function_deep_copy : Option ℕ → Memory → Option (Option ℕ × Memory)
unfolding function_deep_copy_into new_cell
function_deep_copy none m = some (none, m)
function_deep_copy (some p) m = elim (function_of (m.cells p)) [
  | none ↦ none
  | some source ↦ returned_pointer function_cell (function_deep_copy_into source m)
]

-- (*FunctionList).DeepCopy
unfoldable pub list_deep_copy : Option ℕ → Memory → Option (Option ℕ × Memory)
unfolding list_deep_copy_into new_cell
list_deep_copy none m = some (none, m)
list_deep_copy (some p) m = elim (list_of (m.cells p)) [
  | none ↦ none
  | some source ↦ elim (list_deep_copy_into source m) [
    | none ↦ none
    | some copied ↦ returned_pointer list_cell copied
  ]
]

-- A runtime.Object, an interface: nil, or a pointer, which may be nil itself.
pub data RuntimeObject : Type 0 where
  nil_interface : RuntimeObject
  function_pointer list_pointer : Option ℕ → RuntimeObject

-- A pointer as a runtime.Object, if it is not nil.
abbrev pub unless_nil : (Option ℕ → RuntimeObject) → Option ℕ → RuntimeObject
unless_nil pointer none = nil_interface
unless_nil pointer (some c) = pointer (some c)

-- (*Function).DeepCopyObject
unfoldable pub function_deep_copy_object : Option ℕ → Memory → Option (RuntimeObject × Memory)
unfolding function_deep_copy
function_deep_copy_object p m = elim (function_deep_copy p m) [
  | none ↦ none
  | some (c, m') ↦ some (unless_nil function_pointer c, m')
]

-- (*FunctionList).DeepCopyObject
unfoldable pub list_deep_copy_object : Option ℕ → Memory → Option (RuntimeObject × Memory)
unfolding list_deep_copy
list_deep_copy_object p m = elim (list_deep_copy p m) [
  | none ↦ none
  | some (c, m') ↦ some (unless_nil list_pointer c, m')
]
