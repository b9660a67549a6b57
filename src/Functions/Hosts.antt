-- ===== src/Functions/Hosts.antt =====
-- The host under which reconcileConfig stores the entry of a Function.
use Prim.Native.Char.{Char, code}
use Prim.Native.Nat.{compare, Ordering}
use Prim.Native.String.{◌++◌}
use text.Mathlib.TextLemmas.{nil-append, cons-append}
use knative_functions_contro.Common.{
  String, ◌≡◌, refl, ap, ◌∙◌, arith, Bool, true, false, not, ◌&&◌, none, some, List, [], ◌∷◌,
  split_dots,
}
use knative_functions_contro.Functions.Config.{first_two, host_key}

abbrev is_dot : Char → Bool
is_dot c = elim (compare (code c) b'.') [ Ordering.eq ↦ true | _ ↦ false ]

-- Whether a text has no dot.
unfoldable pub has_no_dot : String → Bool
has_no_dot String.[] = true
has_no_dot (String.◌∷◌ c s) = not (is_dot c) && has_no_dot s

-- A text with no dot is its only part.
split_dots_whole : (s : String) → has_no_dot s ≡ true → split_dots s ≡ s ∷ []
unfolding has_no_dot split_dots
split_dots_whole String.[] h = refl
split_dots_whole (String.◌∷◌ c s) h = ground (arith, split_dots_whole s)

-- The first part of a text that begins with a part and a dot.
split_dots-append :
    (p s : String) → has_no_dot p ≡ true → split_dots (p ++ "." ++ s) ≡ p ∷ split_dots s
unfolding has_no_dot split_dots
split_dots-append String.[] s h =
    ap split_dots (nil-append ("." ++ s) ∙ cons-append _ "" s)
    ∙ ap (λ (t : String). "" ∷ split_dots t) (nil-append s)
split_dots-append (String.◌∷◌ c p) s h =
    ap split_dots (cons-append c p ("." ++ s)) ∙ ground (arith, split_dots-append p s)

-- The key is made of the first two parts of the host: for the host `name.namespace.rest`, where the
-- name and the namespace have no dot, it is `name.namespace`, whatever the rest.
pub host_key_prefix :
    (name namespace rest : String)
    → has_no_dot name ≡ true
    → has_no_dot namespace ≡ true
    → host_key (name ++ "." ++ namespace ++ "." ++ rest) ≡ some (name ++ "." ++ namespace)
unfolding host_key
host_key_prefix name namespace rest hn hs = ap first_two (
    split_dots-append name _ hn
    ∙ ap (λ (ps : List String). name ∷ ps) (split_dots-append namespace rest hs))

pub host_key_dotless : (host : String) → has_no_dot host ≡ true → host_key host ≡ none
unfolding host_key
host_key_dotless host h = ap first_two (split_dots_whole host h)
