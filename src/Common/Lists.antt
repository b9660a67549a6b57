-- ===== src/Common/Lists.antt =====
-- Lists, as the logs of calls use them.
use mathlib.Core.Path.{◌≡◌}
use mathlib.Core.List.{List, [], ◌∷◌}

pub no_cycle : {A : Type 0} (x : A) (xs : List A) → xs ≡ x ∷ xs → ⊥
no_cycle x [] h = cc h
no_cycle x (y ∷ xs) h = no_cycle y xs (cc h)
