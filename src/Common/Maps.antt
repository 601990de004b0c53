-- ===== src/Common/Maps.antt =====
-- Go's maps with numbers for keys, as association lists: reading, `delete` and assignment.
use Prim.Native.Nat.{ℕ}
use mathlib.Core.Path.{◌≡◌}
use mathlib.Core.Option.{Option, none, some}
use mathlib.Core.List.{List, [], ◌∷◌}
use native.Mathlib.Omega.{arith}
use district_scheduler.Common.Tests.{◌==◌, if◌then◌else◌}

module _ {ℓ} {Value : Type ℓ} where
  -- `delete(entries, key)`
  unfoldable pub remove : ℕ → List (ℕ × Value) → List (ℕ × Value)
  remove key [] = []
  remove key (entry ∷ entries) =
      let others = remove key entries in if entry.0 == key then others else entry ∷ others

  -- `entries[key]`
  unfoldable pub lookup : ℕ → List (ℕ × Value) → Option Value
  lookup key [] = none
  lookup key (entry ∷ entries) =
      let later = lookup key entries in if entry.0 == key then some entry.1 else later

  -- `entries[key] = value`
  unfoldable pub insert : ℕ → Value → List (ℕ × Value) → List (ℕ × Value)
  unfolding remove
  insert key value entries = (key, value) ∷ remove key entries

  pub lookup-remove :
      (asked key : ℕ) (entries : List (ℕ × Value))
      → lookup asked (remove key entries) ≡ (if key == asked then none else lookup asked entries)
  unfolding remove lookup
  lookup-remove asked key [] = ground arith
  lookup-remove asked key (entry ∷ entries) = ground (arith, lookup-remove asked key entries)

  pub lookup-insert :
      (key asked : ℕ) (value : Value) (entries : List (ℕ × Value))
      → lookup asked (insert key value entries)
        ≡ (if key == asked then some value else lookup asked entries)
  unfolding insert lookup
  lookup-insert key asked value entries = ground (arith, lookup-remove asked key entries)
