-- ===== src/Resources/RouteName.antt =====
-- When two Functions share the name of their route.
use Prim.Native.Char.{Char, code}
use Prim.Native.String.{◌++◌}
use Prim.Native.Nat.{compare, Ordering}
use text.Mathlib.TextLemmas.{
  append_cancel_left, append_assoc, cons-eq-cons, nil-append, cons-append,
}
use knative_functions_contro.Common.{
  String, ◌≡◌, refl, ap, sym, ◌∙◌, Bool, true, false, ◌&&◌, not, arith,
}
use knative_functions_contro.Resources.Route.{make_route_name}

-- Whether a text has no dash.
abbrev is_dash : Char → Bool
is_dash c = elim (compare (code c) b'-') [ Ordering.eq ↦ true | _ ↦ false ]

unfoldable pub has_no_dash : String → Bool
has_no_dash String.[] = true
has_no_dash (String.◌∷◌ c s) = not (is_dash c) && has_no_dash s

-- A text with no dash does not begin like one that begins with a dash.
dash_first :
    (c : Char) (a s t : String)
    → has_no_dash (String.◌∷◌ c a) ≡ true
    → String.◌∷◌ c a ++ s ≡ "-" ++ t
    → ⊥
unfolding has_no_dash
dash_first c a s t h e =
    let first = (cons-eq-cons.0 (sym (cons-append c a s) ∙ e ∙ cons-append _ "" t)).0 in
    ground (arith, h, ap is_dash first)

-- Two texts with no dash, each before a dash, are equal if the whole texts are, and so are the rests.
split_at_dash :
    (a b s t : String)
    → has_no_dash a ≡ true
    → has_no_dash b ≡ true
    → a ++ "-" ++ s ≡ b ++ "-" ++ t
    → (a ≡ b) × (s ≡ t)
split_at_dash String.[] String.[] s t ha hb e =
    (refl, append_cancel_left "-" s t (sym (nil-append _) ∙ e ∙ nil-append _))
split_at_dash String.[] (String.◌∷◌ d b) s t ha hb e =
    absurd (dash_first d b ("-" ++ t) s hb (sym e ∙ nil-append _))
split_at_dash (String.◌∷◌ c a) String.[] s t ha hb e =
    absurd (dash_first c a ("-" ++ s) t ha (e ∙ nil-append _))
split_at_dash (String.◌∷◌ c a) (String.◌∷◌ d b) s t ha hb e =
    let (first, rest) = cons-eq-cons.0 (sym (cons-append c a _) ∙ e ∙ cons-append d b _) in
    let (same, tails) =
      split_at_dash a b s t (unfold has_no_dash in ground (arith, ha))
        (unfold has_no_dash in ground (arith, hb)) rest in
    (cc, tails)

-- Two Functions of one kind whose namespaces hold no dash share the name of their route only if they
-- have the same namespace and the same name.
pub make_route_name_injective :
    (function_name n m ns ms : String)
    → has_no_dash ns ≡ true
    → has_no_dash ms ≡ true
    → make_route_name function_name n ns ≡ make_route_name function_name m ms
    → (ns ≡ ms) × (n ≡ m)
unfolding make_route_name
make_route_name_injective function_name n m ns ms hn hm e =
    split_at_dash ns ms n m hn hm
      (append_cancel_left "-" _ _ (append_cancel_left function_name _ _ e))

-- A dash in a namespace can be read as the separator: the Function `y-z` of namespace `x` and the
-- Function `z` of namespace `x-y` share the name of their route.
pub make_route_name_collision :
    (function_name x y z : String)
    → make_route_name function_name (y ++ "-" ++ z) x
      ≡ make_route_name function_name z (x ++ "-" ++ y)
unfolding make_route_name
make_route_name_collision function_name x y z =
    ap (λ (s : String). function_name ++ "-" ++ s) (simp append_assoc)
