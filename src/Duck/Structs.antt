-- ===== src/Duck/Structs.antt =====
-- The DeepCopyInto methods of pkg/apis/duck/v1alpha1/zz_generated.deepcopy.go on memory.
use knative_functions_contro.Common.{
  ℕ, ◌≤◌, ◌<◌, ◌≡◌, refl, arith, Option, none, some, List, [], ◌∷◌,
}
use knative_functions_contro.Duck.Memory.{
  StatusStruct, FunctionStruct, Memory, copy_cell, copy_pointer,
}
use knative_functions_contro.Duck.DeepCopy.{
  status_deep_copy_into, function_deep_copy_into, copy_items,
}
use knative_functions_contro.Duck.Copies.{
  Extends, Extends-refl, Extends-trans, Twin, Twins, nils, twins, Twin-later, Twin-earlier,
  Twins-later, Twins-earlier, IsBelow, copy_cell-Extends, copy_cell-Twin, copy_pointer-Extends,
  copy_pointer-Twins,
}

-- Every address in the struct has been given out.
abbrev pub IsStatusBelow : ℕ → StatusStruct → Type 0
IsStatusBelow n s = (s.base < n) × IsBelow n s.address × IsBelow n s.url

abbrev pub IsFunctionBelow : ℕ → FunctionStruct → Type 0
IsFunctionBelow n f = (f.meta < n) × IsBelow n f.spec × IsStatusBelow n f.status

abbrev pub AreBelow : ℕ → List FunctionStruct → Type 0
AreBelow n [] = Unit
AreBelow n (f ∷ fs) = IsFunctionBelow n f × AreBelow n fs

pub IsBelow-later : (a b : ℕ) (o : Option ℕ) → a ≤ b → IsBelow a o → IsBelow b o
IsBelow-later a b none h k = tt
IsBelow-later a b (some p) h k = omega (arith, h, k)

IsFunctionBelow-later :
    (a b : ℕ) (f : FunctionStruct) → a ≤ b → IsFunctionBelow a f → IsFunctionBelow b f
IsFunctionBelow-later a b f h (k, l, (i, j, t)) = (
  omega (arith, h, k),
  IsBelow-later a b f.spec h l,
  (omega (arith, h, i), IsBelow-later a b f.status.address h j, IsBelow-later a b f.status.url h t),
)

AreBelow-later : (a b : ℕ) (fs : List FunctionStruct) → a ≤ b → AreBelow a fs → AreBelow b fs
AreBelow-later a b [] h k = tt
AreBelow-later a b (f ∷ fs) h (k, l) = (IsFunctionBelow-later a b f h k, AreBelow-later a b fs h l)

-- The struct is a copy: each of its addresses is new and holds what that of the source held.
pub record StatusTwin (m m' : Memory) (s t : StatusStruct) : Type 0 where
  pub base : Twin m m' s.base t.base
  pub address : Twins m m' s.address t.address
  pub url : Twins m m' s.url t.url

pub record FunctionTwin (m m' : Memory) (s t : FunctionStruct) : Type 0 where
  pub type_meta : t.type_meta ≡ s.type_meta
  pub meta : Twin m m' s.meta t.meta
  pub spec : Twins m m' s.spec t.spec
  pub status : StatusTwin m m' s.status t.status

pub data ItemsTwin (m m' : Memory) : List FunctionStruct → List FunctionStruct → Type 0 where
  no_items : ItemsTwin m m' [] []
  one_more :
      {s t : FunctionStruct} {ss ts : List FunctionStruct}
      → FunctionTwin m m' s t
      → ItemsTwin m m' ss ts
      → ItemsTwin m m' (s ∷ ss) (t ∷ ts)

StatusTwin-earlier :
    {a b c : Memory} {s t : StatusStruct}
    → Extends a b
    → IsStatusBelow a.next s
    → StatusTwin b c s t
    → StatusTwin a c s t
StatusTwin-earlier e (h, k, l) w = record {
  base = Twin-earlier e h w.base;
  address = Twins-earlier e k w.address;
  url = Twins-earlier e l w.url;
}

-- What turns each pair of addresses of a copy into one of another, turns the copy into one.
module _ {a b c : Memory} (go : (p r : ℕ) → Twin a b p r → Twin a c p r) where
  go_pointer : {o r : Option ℕ} → Twins a b o r → Twins a c o r
  go_pointer nils = nils
  go_pointer (twins t) = twins (go _ _ t)

  pub StatusTwin-map : {s t : StatusStruct} → StatusTwin a b s t → StatusTwin a c s t
  StatusTwin-map w = record {
    base = go _ _ w.base;
    address = go_pointer w.address;
    url = go_pointer w.url;
  }

  pub FunctionTwin-map : {s t : FunctionStruct} → FunctionTwin a b s t → FunctionTwin a c s t
  FunctionTwin-map w = record {
    type_meta = w.type_meta;
    meta = go _ _ w.meta;
    spec = go_pointer w.spec;
    status = StatusTwin-map w.status;
  }

  pub ItemsTwin-map : {ss ts : List FunctionStruct} → ItemsTwin a b ss ts → ItemsTwin a c ss ts
  ItemsTwin-map no_items = no_items
  ItemsTwin-map (one_more w ws) = one_more (FunctionTwin-map w) (ItemsTwin-map ws)

FunctionTwin-earlier :
    {a b c : Memory} {s t : FunctionStruct}
    → Extends a b
    → IsFunctionBelow a.next s
    → FunctionTwin b c s t
    → FunctionTwin a c s t
FunctionTwin-earlier e (h, k, l) w = record {
  type_meta = w.type_meta;
  meta = Twin-earlier e h w.meta;
  spec = Twins-earlier e k w.spec;
  status = StatusTwin-earlier e l w.status;
}

ItemsTwin-earlier :
    {a b c : Memory} {ss ts : List FunctionStruct}
    → Extends a b
    → ItemsTwin b c ss ts
    → AreBelow a.next ss
    → ItemsTwin a c ss ts
ItemsTwin-earlier e no_items h = no_items
ItemsTwin-earlier e (one_more w ws) (h, k) =
    one_more (FunctionTwin-earlier e h w) (ItemsTwin-earlier e ws k)

-- A copy that is put into memory: memory goes on, and the struct is a copy in it.
abbrev pub Copied :
    {A : Type 0} → (Memory → Memory → A → A → Type 0) → Memory → A → A × Memory → Type 0
Copied T m source (out, m') = Extends m m' × T m m' source out

pub status_deep_copy_into-Copied :
    (s : StatusStruct) (m : Memory)
    → IsStatusBelow m.next s
    → Copied StatusTwin m s (status_deep_copy_into s m)
unfolding status_deep_copy_into
status_deep_copy_into-Copied s m (h, k, l) =
    let m1 = (copy_cell s.base m).1 in
    let m2 = (copy_pointer s.address m1).1 in
    let e1 = copy_cell-Extends s.base m in
    let e2 = copy_pointer-Extends s.address m1 in
    let e3 = copy_pointer-Extends s.url m2 in
    (
      Extends-trans e1 (Extends-trans e2 e3),
      record {
        base = Twin-later (Extends-trans e2 e3) (copy_cell-Twin s.base m);
        address = Twins-later e3 (Twins-earlier e1 k (copy_pointer-Twins s.address m1));
        url = Twins-earlier (Extends-trans e1 e2) l (copy_pointer-Twins s.url m2);
      },
    )

pub function_deep_copy_into-Copied :
    (f : FunctionStruct) (m : Memory)
    → IsFunctionBelow m.next f
    → Copied FunctionTwin m f (function_deep_copy_into f m)
unfolding function_deep_copy_into
function_deep_copy_into-Copied f m (h, k, (i, j, l)) =
    let m1 = (copy_cell f.meta m).1 in
    let m2 = (copy_pointer f.spec m1).1 in
    let e1 = copy_cell-Extends f.meta m in
    let e2 = copy_pointer-Extends f.spec m1 in
    let e12 = Extends-trans e1 e2 in
    let below : IsStatusBelow m2.next f.status = (
      omega (arith, i, e12.grown),
      IsBelow-later m.next m2.next f.status.address e12.grown j,
      IsBelow-later m.next m2.next f.status.url e12.grown l,
    ) in
    let (e3, status) = status_deep_copy_into-Copied f.status m2 below in
    (
      Extends-trans e12 e3,
      record {
        type_meta = refl;
        meta = Twin-later (Extends-trans e2 e3) (copy_cell-Twin f.meta m);
        spec = Twins-later e3 (Twins-earlier e1 k (copy_pointer-Twins f.spec m1));
        status = StatusTwin-earlier e12 (i, j, l) status;
      },
    )

pub copy_items-Copied :
    (fs : List FunctionStruct) (m : Memory)
    → AreBelow m.next fs
    → Copied ItemsTwin m fs (copy_items fs m)
unfolding copy_items
copy_items-Copied [] m h = (Extends-refl m, no_items)
copy_items-Copied (f ∷ fs) m (h, k) =
    let m1 = (function_deep_copy_into f m).1 in
    let (e1, one) = function_deep_copy_into-Copied f m h in
    let (e2, rest) = copy_items-Copied fs m1 (AreBelow-later m.next m1.next fs e1.grown k) in
    (
      Extends-trans e1 e2,
      one_more (FunctionTwin-map (λ p r. Twin-later e2) one) (ItemsTwin-earlier e1 rest k),
    )
