-- ===== src/Duck/Copies.antt =====
-- What a deep copy does to memory: the cells of the copy are new, and hold what those of the source hold.
use mathlib.Core.Logic.{if_pos, if_neg}
use native.Mathlib.Decide.{ℕ_discrete}
use knative_functions_contro.Common.{ℕ, ◌≤◌, ◌<◌, ◌≡◌, ◌≢◌, refl, ◌∙◌, arith, Option, none, some}
use knative_functions_contro.Duck.Memory.{Cell, Memory, set_cell, new_cell, copy_cell, copy_pointer}

pub set_cell-same : (p : ℕ) (c : Option Cell) (f : ℕ → Option Cell) → set_cell p c f p ≡ c
unfolding set_cell
set_cell-same p c f = if_pos (ℕ_discrete p p) refl c (f p)

pub set_cell-other :
    (p q : ℕ) (c : Option Cell) (f : ℕ → Option Cell) → p ≢ q → set_cell p c f q ≡ f q
unfolding set_cell
set_cell-other p q c f h = if_neg (ℕ_discrete p q) h c (f q)

-- Memory goes on: what was there is there still.
pub record Extends (m m' : Memory) : Type 0 where
  pub grown : m.next ≤ m'.next
  pub kept : (q : ℕ) → q < m.next → m'.cells q ≡ m.cells q

pub Extends-refl : (m : Memory) → Extends m m
Extends-refl m = record { grown = omega arith; kept = λ q h. refl }

pub Extends-trans : {a b c : Memory} → Extends a b → Extends b c → Extends a c
Extends-trans e f = record {
  grown = omega (arith, e.grown, f.grown);
  kept = λ q h. f.kept q (omega (arith, h, e.grown)) ∙ e.kept q h;
}

-- The address is new, and holds what the source held.
pub record Twin (m m' : Memory) (p r : ℕ) : Type 0 where
  pub low : m.next ≤ r
  pub high : r < m'.next
  pub same : m'.cells r ≡ m.cells p

pub Twin-later : {a b c : Memory} {p r : ℕ} → Extends b c → Twin a b p r → Twin a c p r
Twin-later {r} e t = record {
  low = t.low;
  high = omega (arith, t.high, e.grown);
  same = e.kept r t.high ∙ t.same;
}

pub Twin-earlier :
    {a b c : Memory} {p r : ℕ} → Extends a b → p < a.next → Twin b c p r → Twin a c p r
Twin-earlier {p} e h t = record {
  low = omega (arith, t.low, e.grown);
  high = t.high;
  same = t.same ∙ e.kept p h;
}

pub new_cell-Extends : (c : Option Cell) (m : Memory) → Extends m (new_cell c m).1
unfolding new_cell
new_cell-Extends c m = record {
  grown = omega arith;
  kept = λ q h. set_cell-other m.next q c m.cells (λ e. omega (arith, h, e));
}

pub new_cell-holds :
    (c : Option Cell) (m : Memory)
    → ((new_cell c m).1.cells (new_cell c m).0 ≡ c)
      × (m.next ≤ (new_cell c m).0)
      × ((new_cell c m).0 < (new_cell c m).1.next)
unfolding new_cell
new_cell-holds c m = (set_cell-same m.next c m.cells, omega arith, omega arith)

pub copy_cell-Extends : (p : ℕ) (m : Memory) → Extends m (copy_cell p m).1
unfolding copy_cell
copy_cell-Extends p m = new_cell-Extends (m.cells p) m

pub copy_cell-Twin : (p : ℕ) (m : Memory) → Twin m (copy_cell p m).1 p (copy_cell p m).0
unfolding copy_cell
copy_cell-Twin p m =
    let (holds, low, high) = new_cell-holds (m.cells p) m in
    record { low = low; high = high; same = holds }

-- The same for a pointer that may be nil.
pub data Twins (m m' : Memory) : Option ℕ → Option ℕ → Type 0 where
  nils : Twins m m' none none
  twins : {p r : ℕ} → Twin m m' p r → Twins m m' (some p) (some r)

abbrev pub IsBelow : ℕ → Option ℕ → Type 0
IsBelow n none = Unit
IsBelow n (some p) = p < n

pub copy_pointer-Extends : (o : Option ℕ) (m : Memory) → Extends m (copy_pointer o m).1
unfolding copy_pointer
copy_pointer-Extends none m = Extends-refl m
copy_pointer-Extends (some p) m = copy_cell-Extends p m

pub copy_pointer-Twins :
    (o : Option ℕ) (m : Memory) → Twins m (copy_pointer o m).1 o (copy_pointer o m).0
unfolding copy_pointer
copy_pointer-Twins none m = nils
copy_pointer-Twins (some p) m = twins (copy_cell-Twin p m)

pub Twins-later : {a b c : Memory} {o r : Option ℕ} → Extends b c → Twins a b o r → Twins a c o r
Twins-later e nils = nils
Twins-later e (twins t) = twins (Twin-later e t)

pub Twins-earlier :
    {a b c : Memory} {o r : Option ℕ}
    → Extends a b
    → IsBelow a.next o
    → Twins b c o r
    → Twins a c o r
Twins-earlier e h nils = nils
Twins-earlier e h (twins t) = twins (Twin-earlier e h t)
