-- ===== src/Common/Maps.antt =====
-- Go's `map[string]V`, as a list of entries with the first entry of a key in force. A nil map is
-- the `none` of an `Option`, where the code can meet one.
use Prim.Native.String.{String}
use mathlib.Core.Path.{◌≡◌, refl}
use mathlib.Core.Option.{Option, none, some}
use mathlib.Core.List.{List, [], ◌∷◌}
use native.Mathlib.Omega.{arith}
use text.Mathlib.Text.{◌==◌}
use text.Mathlib.TextEquality.{eq_iff}
use knative_functions_contro.Common.Tests.{if◌then◌else◌}

abbrev pub Dict {ℓ} : Type ℓ → Type ℓ
Dict V = List (String × V)

module _ {ℓ} {V : Type ℓ} where
  -- The entry in force for a key.
  unfoldable pub lookup : String → Dict V → Option V
  lookup key [] = none
  lookup key ((name, value) ∷ entries) = if name == key then some value else lookup key entries

  -- m[key] = value: it replaces the entry in force, or adds one behind the others.
  unfoldable pub insert : String → V → Dict V → Dict V
  insert key value [] = (key, value) ∷ []
  insert key value ((name, old) ∷ entries) =
      if name == key then (name, value) ∷ entries else (name, old) ∷ insert key value entries

  -- A read of a key, of a nil map too.
  abbrev pub lookup_nil : String → Option (Dict V) → Option V
  lookup_nil key none = none
  lookup_nil key (some entries) = lookup key entries

  pub lookup-insert :
      (key wanted : String) (value : V) (entries : Dict V)
      → lookup wanted (insert key value entries)
        ≡ (if key == wanted then some value else lookup wanted entries)
  unfolding insert lookup
  lookup-insert key wanted value [] = refl
  lookup-insert key wanted value ((name, old) ∷ entries) = ground (
    lookup-insert key wanted value entries,
    eq_iff name key,
    eq_iff key wanted,
    eq_iff name wanted,
    arith,
  )
