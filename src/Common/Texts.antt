-- ===== src/Common/Texts.antt =====
-- The parts of Go's `fmt` and `strings` that the source uses.
use Prim.Native.Char.{Char, code}
use Prim.Native.Nat.{compare, Ordering}
use Prim.Native.String.{String, ◌++◌}
use mathlib.Core.Path.{◌≡◌, refl}
use mathlib.Core.List.{List, [], ◌∷◌}

-- The verb %q, for a text with no character that wants an escape, as the names of resources are.
unfoldable pub quote : String → String
quote s = "\"" ++ s ++ "\""

abbrev pub cons_part : Char → List String → List String
cons_part c [] = (String.◌∷◌ c String.[]) ∷ []
cons_part c (p ∷ ps) = String.◌∷◌ c p ∷ ps

-- strings.Split(s, ".")
unfoldable pub split_dots : String → List String
split_dots String.[] = String.[] ∷ []
split_dots (String.◌∷◌ c s) =
    let parts = split_dots s in
    elim (compare (code c) b'.') [ Ordering.eq ↦ String.[] ∷ parts | _ ↦ cons_part c parts ]

split_dots_host : split_dots "route.ns.svc" ≡ "route" ∷ "ns" ∷ "svc" ∷ []
unfolding split_dots
split_dots_host = refl
