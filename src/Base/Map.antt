-- ===== src/Base/Map.antt =====
-- Go's `map[string]V` as an association list. `range` visits a map in no fixed order: a loop over
-- a map is modelled over its list, and theorems quantify over every list.
use mathlib.Core.Path.{◌≡◌, refl}
use mathlib.Core.Bool.{Bool}
use mathlib.Core.Option.{Option, none, some}
use mathlib.Core.List.{List, [], ◌∷◌}
use native.Mathlib.Omega.{arith}
use rpc.Base.Tests.{if◌then◌else◌, is_some}
use rpc.Base.Lists.{length}
use Prim.Native.Nat.{◌<◌, ◌≤◌}
use rpc.Base.Strings.{Text, text_eq, text_eq_iff, text_eq_refl}

abbrev pub Map {ℓ} : Type ℓ → Type ℓ
Map V = List (Text × V)

module _ {ℓ} {V : Type ℓ} where
  -- v, ok := m[k]
  unfoldable pub lookup : Text → Map V → Option V
  lookup k [] = none
  lookup k ((j, v) ∷ m) = if text_eq j k then some v else lookup k m

  -- m[k] = v
  unfoldable pub insert : Text → V → Map V → Map V
  insert k v [] = (k, v) ∷ []
  insert k v ((j, w) ∷ m) = if text_eq j k then (k, v) ∷ m else (j, w) ∷ insert k v m

  unfoldable pub keys : Map V → List Text
  keys [] = []
  keys ((j, v) ∷ m) = j ∷ keys m

  unfoldable pub has : Text → Map V → Bool
  has k m = is_some (lookup k m)

  pub lookup-insert :
      (k j : Text) (v : V) (m : Map V)
      → lookup j (insert k v m) ≡ (if text_eq k j then some v else lookup j m)
  unfolding lookup insert
  lookup-insert k j v [] = refl
  lookup-insert k j v ((i, w) ∷ m) =
      ground (arith, text_eq_iff k j, text_eq_iff i k, text_eq_iff i j, lookup-insert k j v m)

  pub lookup-insert_self : (k : Text) (v : V) (m : Map V) → lookup k (insert k v m) ≡ some v
  lookup-insert_self k v m = simp (lookup-insert, text_eq_refl)

  pub length-insert :
      (k : Text) (v : V) (m : Map V)
      → (0 < length (insert k v m)) × (length m ≤ length (insert k v m))
  unfolding insert
  length-insert k v [] = ground arith
  length-insert k v ((i, w) ∷ m) = ground (arith, length-insert k v m)
