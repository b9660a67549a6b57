-- ===== src/Duck/Memory.antt =====
-- Go's memory, as far as the deep copies of pkg/apis/duck/v1alpha1/zz_generated.deepcopy.go see it: the
-- structs of the package, and cells for what their pointers, maps and slices lead to.
use native.Mathlib.Decide.{ℕ_discrete}
use mathlib.Core.Logic.{ite}
use knative_functions_contro.Common.{ℕ, suc, String, Option, none, some, List}
use knative_functions_contro.Kube.Objects.{Url, Addressable, Condition, TypeMeta, ObjectMeta}
use knative_functions_contro.Duck.Types.{RawExtension}

-- A FunctionStatus: `base` leads to what the embedded duckv1beta1.Status holds.
pub record StatusStruct : Type 0 where
  pub base : ℕ
  pub address : Option ℕ
  pub url : Option ℕ

-- A Function: `meta` leads to what the embedded metav1.ObjectMeta holds.
pub record FunctionStruct : Type 0 where
  pub type_meta : TypeMeta
  pub meta : ℕ
  pub spec : Option ℕ
  pub status : StatusStruct

-- A metav1.ListMeta
pub record ListMetaStruct : Type 0 where
  pub self_link : String
  pub resource_version : String
  pub continue_token : String
  pub remaining_item_count : Option ℕ

-- A FunctionList: `items` leads to the array of the slice.
pub record ListStruct : Type 0 where
  pub type_meta : TypeMeta
  pub meta : ListMetaStruct
  pub items : Option ℕ

-- What an address leads to. A library's type that has a DeepCopyInto of its own is one cell, with all
-- that can be reached from it.
pub data Cell : Type 0 where
  meta_cell : ObjectMeta → Cell
  raw_cell : RawExtension → Cell
  base_cell : ℕ → List Condition → Cell
  addressable_cell : Addressable → Cell
  url_cell : Url → Cell
  count_cell : ℕ → Cell
  array_cell : List FunctionStruct → Cell
  status_cell : StatusStruct → Cell
  function_cell : FunctionStruct → Cell
  list_cell : ListStruct → Cell

-- The addresses below `next` have been given out.
pub record Memory : Type 0 where
  pub next : ℕ
  pub cells : ℕ → Option Cell

unfoldable pub set_cell : ℕ → Option Cell → (ℕ → Option Cell) → ℕ → Option Cell
set_cell p c cells q = ite (ℕ_discrete p q) c (cells q)

-- A write through a pointer.
abbrev pub write : ℕ → Cell → Memory → Memory
write p c m = record m { cells = set_cell p (some c) m.cells }

-- new(T), and what is put there
unfoldable pub new_cell : Option Cell → Memory → ℕ × Memory
unfolding set_cell
new_cell c m = (m.next, record { next = suc m.next; cells = set_cell m.next c m.cells })

-- new(T) and the library's `(*in).DeepCopyInto(*out)` for a type of a library
unfoldable pub copy_cell : ℕ → Memory → ℕ × Memory
unfolding new_cell
copy_cell p m = new_cell (m.cells p) m

-- `if in.F != nil { *out = new(T); (*in).DeepCopyInto(*out) }` for a pointer of such a type
unfoldable pub copy_pointer : Option ℕ → Memory → Option ℕ × Memory
unfolding copy_cell
copy_pointer none m = (none, m)
copy_pointer (some p) m = let (q, m') = copy_cell p m in (some q, m')
