-- ===== src/Common/Maps.antt =====
-- Go maps with string keys, as association lists in the order in which a `range` meets the keys.
use Prim.Native.String.{String}
use mathlib.Core.Path.{◌≡◌, refl}
use mathlib.Core.Option.{Option, none, some}
use mathlib.Core.List.{List, [], ◌∷◌}
use native.Mathlib.Omega.{arith}
use text.Mathlib.Text.{◌==◌}
use text.Mathlib.TextEquality.{eq_iff}
use go_sdk_contrib.Common.Tests.{if◌then◌else◌}

-- a key with its value
abbrev pub Entry {ℓ} : Type ℓ → Type ℓ
Entry V = String × V

abbrev pub Assoc {ℓ} : Type ℓ → Type ℓ
Assoc V = List (Entry V)

module _ {ℓ} {V : Type ℓ} where
  -- `m[key]`
  unfoldable pub lookup : String → Assoc V → Option V
  lookup key [] = none
  lookup key (entry ∷ entries) =
      let later = lookup key entries in if entry.0 == key then some entry.1 else later

  -- `m[key] = value`
  unfoldable pub insert : String → V → Assoc V → Assoc V
  insert key value [] = (key, value) ∷ []
  insert key value (entry ∷ entries) =
      let later = insert key value entries in
      if entry.0 == key then (key, value) ∷ entries else entry ∷ later

  -- `delete(m, key)`
  unfoldable pub erase : String → Assoc V → Assoc V
  erase key [] = []
  erase key (entry ∷ entries) =
      let later = erase key entries in if entry.0 == key then later else entry ∷ later

  pub lookup-insert :
      (key other : String) (value : V) (entries : Assoc V)
      → (if key == other then some value else lookup other entries)
        ≡ lookup other (insert key value entries)
  unfolding insert lookup
  lookup-insert key other value [] = refl
  lookup-insert key other value (entry ∷ entries) = ground (
    arith,
    lookup-insert key other value entries,
    eq_iff key other,
    eq_iff entry.0 other,
    eq_iff entry.0 key,
  )

  pub lookup-erase :
      (key other : String) (entries : Assoc V)
      → lookup other (erase key entries) ≡ (if key == other then none else lookup other entries)
  unfolding lookup erase
  lookup-erase key other [] = ground arith
  lookup-erase key other (entry ∷ entries) = ground (
    arith,
    lookup-erase key other entries,
    eq_iff key other,
    eq_iff entry.0 other,
    eq_iff entry.0 key,
  )
