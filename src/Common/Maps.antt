-- ===== src/Common/Maps.antt =====
-- Go's map[string]V as an association list.
use Prim.Native.String.{String}
use mathlib.Core.Path.{◌≡◌}
use mathlib.Core.Option.{Option, none, some}
use mathlib.Core.List.{List, [], ◌∷◌}
use native.Mathlib.Omega.{arith}
use text.Mathlib.Text.{◌==◌}
use text.Mathlib.TextEquality.{eq_iff}
use text.Mathlib.TextPositions.{eq_refl}
use gate_lens.Common.Tests.{if◌then◌else◌}

module _ {ℓ} {V : Type ℓ} where
  -- `delete(m, key)`
  unfoldable pub remove : String → List (String × V) → List (String × V)
  remove key [] = []
  remove key ((name, value) ∷ entries) =
      let rest = remove key entries in if name == key then rest else (name, value) ∷ rest

  -- `m[key] = value`
  unfoldable pub insert : String → V → List (String × V) → List (String × V)
  unfolding remove
  insert key value entries = (key, value) ∷ remove key entries

  -- The two-valued `m[key]`.
  unfoldable pub lookup : String → List (String × V) → Option V
  lookup key [] = none
  lookup key ((name, value) ∷ entries) =
      let later = lookup key entries in if name == key then some value else later

  pub lookup-remove :
      (gone key : String) (entries : List (String × V))
      → lookup key (remove gone entries) ≡ (if gone == key then none else lookup key entries)
  unfolding remove lookup
  lookup-remove gone key [] = ground arith
  lookup-remove gone key ((name, value) ∷ entries) =
      ground
        (arith, lookup-remove gone key entries, eq_iff name gone, eq_iff name key, eq_iff gone key)

  pub lookup-insert :
      (new key : String) (value : V) (entries : List (String × V))
      → lookup key (insert new value entries)
        ≡ (if new == key then some value else lookup key entries)
  unfolding insert lookup
  lookup-insert new key value entries = ground (arith, lookup-remove new key entries)

  pub lookup-insert_self :
      (key : String) (value : V) (entries : List (String × V))
      → lookup key (insert key value entries) ≡ some value
  unfolding insert lookup
  lookup-insert_self key value entries = ground (arith, eq_refl key)
