-- ===== src/Duck/Contents.antt =====
-- What a pointer of pkg/apis/duck/v1alpha1 reads as: the value behind it, with all that it leads to.
use mathlib.Core.Option
use knative_functions_contro.Common.{ℕ, ◌≡◌, refl, ap, Option, none, some, List, [], ◌∷◌}
use knative_functions_contro.Kube.Objects.{Url, Addressable, Condition, TypeMeta, ObjectMeta}
use knative_functions_contro.Duck.Types.{RawExtension, FunctionStatus, Function}
use knative_functions_contro.Duck.Memory.{
  StatusStruct, FunctionStruct, Cell, meta_cell, raw_cell, base_cell, addressable_cell, url_cell,
  count_cell, Memory,
}
use knative_functions_contro.Duck.DeepCopy.{function_of}
use knative_functions_contro.Duck.Copies.{Extends, Twins, nils, twins, IsBelow}
use knative_functions_contro.Duck.Structs.{
  IsFunctionBelow, AreBelow, StatusTwin, FunctionTwin, ItemsTwin, no_items, one_more,
}

abbrev pub Cells : Type 0
Cells = ℕ → Option Cell

abbrev object_meta_of : Option Cell → Option ObjectMeta
object_meta_of (some (meta_cell meta)) = some meta
object_meta_of _ = none

abbrev raw_of : Option Cell → Option RawExtension
raw_of (some (raw_cell r)) = some r
raw_of _ = none

abbrev base_of : Option Cell → Option (ℕ × List Condition)
base_of (some (base_cell generation conditions)) = some (generation, conditions)
base_of _ = none

abbrev addressable_of : Option Cell → Option Addressable
addressable_of (some (addressable_cell a)) = some a
addressable_of _ = none

abbrev url_of : Option Cell → Option Url
url_of (some (url_cell u)) = some u
url_of _ = none

abbrev pub count_of : Option Cell → Option ℕ
count_of (some (count_cell n)) = some n
count_of _ = none

-- A nil pointer, or what the pointer leads to.
abbrev pub pointed : {A : Type 0} → (Option Cell → Option A) → Cells → Option ℕ → Option (Option A)
pointed of cells none = some none
pointed of cells (some p) = Option.map some (of (cells p))

abbrev status_from :
    Option (ℕ × List Condition)
    → Option (Option Addressable)
    → Option (Option Url)
    → Option FunctionStatus
status_from (some (generation, conditions)) (some address) (some url) = some (record {
  observed_generation = generation;
  conditions = conditions;
  address = address;
  url = url;
})
status_from _ _ _ = none

abbrev pub status_contents : Cells → StatusStruct → Option FunctionStatus
status_contents cells s =
    status_from (base_of (cells s.base)) (pointed addressable_of cells s.address)
      (pointed url_of cells s.url)

abbrev function_from :
    TypeMeta
    → Option ObjectMeta
    → Option (Option RawExtension)
    → Option FunctionStatus
    → Option Function
function_from type_meta (some meta) (some spec) (some status) =
    some (record { type_meta = type_meta; meta = meta; spec = spec; status = status })
function_from type_meta _ _ _ = none

abbrev pub function_contents : Cells → FunctionStruct → Option Function
function_contents cells f =
    function_from f.type_meta (object_meta_of (cells f.meta)) (pointed raw_of cells f.spec)
      (status_contents cells f.status)

abbrev both : {A : Type 0} → Option A → Option (List A) → Option (List A)
both (some a) (some rest) = some (a ∷ rest)
both _ _ = none

abbrev pub items_contents : Cells → List FunctionStruct → Option (List Function)
items_contents cells [] = some []
items_contents cells (f ∷ fs) = both (function_contents cells f) (items_contents cells fs)

-- What a pointer to a Function reads as.
abbrev behind : Cells → Option FunctionStruct → Option Function
behind cells none = none
behind cells (some f) = function_contents cells f

abbrev pub function_at : Memory → ℕ → Option Function
function_at m p = behind m.cells (function_of (m.cells p))

module _ {m m' : Memory} where
  pointed-Twins :
      {A : Type 0} (of : Option Cell → Option A) {o r : Option ℕ}
      → Twins m m' o r
      → pointed of m'.cells r ≡ pointed of m.cells o
  pointed-Twins of nils = refl
  pointed-Twins of (twins t) = ap (λ c. Option.map some (of c)) t.same

  status_contents-Twin :
      {s t : StatusStruct}
      → StatusTwin m m' s t
      → status_contents m'.cells t ≡ status_contents m.cells s
  status_contents-Twin w =
      rw (w.base.same, pointed-Twins addressable_of w.address, pointed-Twins url_of w.url) refl

  -- A copy reads as its source.
  pub function_contents-Twin :
      {s t : FunctionStruct}
      → FunctionTwin m m' s t
      → function_contents m'.cells t ≡ function_contents m.cells s
  function_contents-Twin w =
      rw (w.type_meta, w.meta.same, pointed-Twins raw_of w.spec, status_contents-Twin w.status) refl

  pub items_contents-Twin :
      {ss ts : List FunctionStruct}
      → ItemsTwin m m' ss ts
      → items_contents m'.cells ts ≡ items_contents m.cells ss
  items_contents-Twin no_items = refl
  items_contents-Twin (one_more w ws) = rw (function_contents-Twin w, items_contents-Twin ws) refl

module _ {m m' : Memory} (e : Extends m m') where
  pointed-IsBelow :
      {A : Type 0} (of : Option Cell → Option A) (o : Option ℕ)
      → IsBelow m.next o
      → pointed of m'.cells o ≡ pointed of m.cells o
  pointed-IsBelow of none h = refl
  pointed-IsBelow of (some p) h = ap (λ c. Option.map some (of c)) (e.kept p h)

  -- A struct that was there reads as before.
  pub function_contents-IsFunctionBelow :
      (f : FunctionStruct)
      → IsFunctionBelow m.next f
      → function_contents m'.cells f ≡ function_contents m.cells f
  function_contents-IsFunctionBelow f (h, k, (i, j, l)) =
      rw
        (
          e.kept f.meta h,
          pointed-IsBelow raw_of f.spec k,
          e.kept f.status.base i,
          pointed-IsBelow addressable_of f.status.address j,
          pointed-IsBelow url_of f.status.url l,
        )
        refl

  pub items_contents-AreBelow :
      (fs : List FunctionStruct)
      → AreBelow m.next fs
      → items_contents m'.cells fs ≡ items_contents m.cells fs
  items_contents-AreBelow [] h = refl
  items_contents-AreBelow (f ∷ fs) (h, k) =
      rw (function_contents-IsFunctionBelow f h, items_contents-AreBelow fs k) refl
