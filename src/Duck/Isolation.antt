-- ===== src/Duck/Isolation.antt =====
-- DeepCopy of pkg/apis/duck/v1alpha1/zz_generated.deepcopy.go: writes to a Function and to its copy.
use knative_functions_contro.Common.{ℕ, ◌≤◌, ◌<◌, ◌≡◌, refl, ◌∙◌, ◌⊎◌, inl, inr, arith, some}
use native.Mathlib.Decide.{dec_lt}
use knative_functions_contro.Duck.Types.{Function}
use knative_functions_contro.Duck.Memory.{
  FunctionStruct, Cell, function_cell, Memory, write, new_cell,
}
use knative_functions_contro.Duck.DeepCopy.{function_deep_copy_into, function_deep_copy}
use knative_functions_contro.Duck.Copies.{
  set_cell-other, Extends, Extends-trans, Twin, Twin-later, new_cell-Extends, new_cell-holds,
}
use knative_functions_contro.Duck.Structs.{
  IsFunctionBelow, FunctionTwin, FunctionTwin-map, function_deep_copy_into-Copied,
}
use knative_functions_contro.Duck.Contents.{
  function_at, function_contents-Twin, function_contents-IsFunctionBelow,
}

module _ {m m' : Memory} (a : ℕ) (c : Cell) where
  pub write-Extends : m.next ≤ a → Extends m m' → Extends m (write a c m')
  write-Extends h e = record {
    grown = e.grown;
    kept = λ q k.
        set_cell-other a q (some c) m'.cells (λ same. omega (arith, h, k, same)) ∙ e.kept q k;
  }

  pub write-Twin : a < m.next → (p r : ℕ) → Twin m m' p r → Twin m (write a c m') p r
  write-Twin h p r t = record {
    low = t.low;
    high = t.high;
    same = set_cell-other a r (some c) m'.cells (λ same. omega (arith, h, t.low, same)) ∙ t.same;
  }

-- A Function in memory, with a copy in a memory that has gone on.
record IsCopy (m m' : Memory) (p q : ℕ) (f out : FunctionStruct) : Type 0 where
  source : m.cells p ≡ some (function_cell f)
  in_use : p < m.next
  below : IsFunctionBelow m.next f
  goes_on : Extends m m'
  low : m.next ≤ q
  target : m'.cells q ≡ some (function_cell out)
  twin : FunctionTwin m m' f out

module _ {m m' : Memory} {p q : ℕ} {f out : FunctionStruct} (copy : IsCopy m m' p q f out) where
  function_at-source : function_at m' p ≡ function_at m p
  function_at-source =
      rw (copy.goes_on.kept p copy.in_use, copy.source)
        (function_contents-IsFunctionBelow copy.goes_on f copy.below)

  function_at-target : function_at m' q ≡ function_at m p
  function_at-target = rw (copy.target, copy.source) (function_contents-Twin copy.twin)

  write_above : (a : ℕ) (c : Cell) → m.next ≤ a → function_at (write a c m') p ≡ function_at m p
  write_above a c h =
      let e = write-Extends {m = m} {m' = m'} a c h copy.goes_on in
      rw (e.kept p copy.in_use, copy.source) (function_contents-IsFunctionBelow e f copy.below)

  write_below : (a : ℕ) (c : Cell) → a < m.next → function_at (write a c m') q ≡ function_at m p
  write_below a c h =
      let kept : (write a c m').cells q ≡ some (function_cell out) =
        set_cell-other a q (some c) m'.cells (λ same. omega (arith, h, copy.low, same))
        ∙ copy.target in
      rw (kept, copy.source)
        (function_contents-Twin (FunctionTwin-map (write-Twin {m = m} {m' = m'} a c h) copy.twin))

function_deep_copy-IsCopy :
    (m : Memory) (p : ℕ) (f : FunctionStruct)
    → m.cells p ≡ some (function_cell f)
    → p < m.next
    → IsFunctionBelow m.next f
    → (q : ℕ) × (m' : Memory) × (out : FunctionStruct) × (function_deep_copy (some p) m
        ≡ some (some q, m'))
      × IsCopy m m' p q f out
unfolding function_deep_copy
function_deep_copy-IsCopy m p f source in_use below =
    let (out, m1) = function_deep_copy_into f m in
    let (e1, twin) = function_deep_copy_into-Copied f m below in
    let e2 = new_cell-Extends (some (function_cell out)) m1 in
    let (holds, low, _) = new_cell-holds (some (function_cell out)) m1 in
    (
      (new_cell (some (function_cell out)) m1).0,
      (new_cell (some (function_cell out)) m1).1,
      out,
      rw (source, function_deep_copy) refl,
      record {
        source = source;
        in_use = in_use;
        below = below;
        goes_on = Extends-trans e1 e2;
        low = omega (arith, e1.grown, low);
        target = holds;
        twin = FunctionTwin-map (λ p r. Twin-later e2) twin;
      },
    )

-- A pointer leads to a Function in memory, whose pointers, like itself, lead to addresses that have
-- been given out. Then DeepCopy returns a pointer; behind it and behind the old one the Function reads
-- as it did before. A write at an address that had been given out before the call leaves what is read
-- behind the copy, and a write at any other address leaves what is read behind the original.
pub function_deep_copy-isolates :
    (m : Memory) (p a : ℕ) (f : FunctionStruct) (fn : Function) (c : Cell)
    → m.cells p ≡ some (function_cell f)
    → p < m.next
    → IsFunctionBelow m.next f
    → function_at m p ≡ some fn
    → (q : ℕ) × (m' : Memory) × (function_deep_copy (some p) m ≡ some (some q, m'))
      × (function_at m' q ≡ some fn)
      × (function_at m' p ≡ some fn)
      × (((a < m.next) × (function_at (write a c m') q ≡ some fn))
          ⊎ ((m.next ≤ a) × (function_at (write a c m') p ≡ some fn)))
function_deep_copy-isolates m p a f fn c source in_use below reads =
    let (q, m', out, made, copy) = function_deep_copy-IsCopy m p f source in_use below in
    (
      q,
      m',
      made,
      function_at-target copy ∙ reads,
      function_at-source copy ∙ reads,
      elim (dec_lt a m.next) [
        | yes h ↦ inl (h, write_below copy a c h ∙ reads)
        | no h ↦ inr (omega (arith, h), write_above copy a c (omega (arith, h)) ∙ reads)
      ],
    )
