-- ===== src/Base/Maps.antt =====
-- `std::map<std::string, V>` as an association list in the order of its iterator.
use Prim.Native.String.{String, compare}
use mathlib.Core.Path.{◌≡◌, refl}
use mathlib.Core.Bool.{Bool, true, false}
use mathlib.Core.Option.{Option, none, some}
use mathlib.Core.List.{List, [], ◌∷◌}
use native.Mathlib.Omega.{arith}
use text.Mathlib.Text.{◌==◌, is_lt}
use text.Mathlib.TextEquality.{eq_iff}
use text.Mathlib.TextPositions.{eq_refl}
use doo_fit.Base.Tests.{if◌then◌else◌}

abbrev pub Dict {ℓ} : Type ℓ → Type ℓ
Dict V = List (String × V)

module _ {ℓ} {V : Type ℓ} where
  -- The iterator of `find`, or `none` for `end()`.
  unfoldable pub find : String → Dict V → Option V
  find k [] = none
  find k ((j, v) ∷ m) = if j == k then some v else find k m

  -- `m[k] = v`: the slot of an equal key, or a new slot in the order of the keys.
  unfoldable pub assign : String → V → Dict V → Dict V
  assign k v [] = (k, v) ∷ []
  assign k v ((j, w) ∷ m) =
      if j == k
      then (k, v) ∷ m
      else if is_lt (compare k j)
      then (k, v) ∷ (j, w) ∷ m
      else (j, w) ∷ assign k v m

  -- `count(k) == 1`
  unfoldable pub has_key : String → Dict V → Bool
  unfolding find
  has_key k m = elim (find k m) [ none ↦ false | some _ ↦ true ]

  -- `m.insert(pair(k, v))`: an equal key keeps its value.
  unfoldable pub insert : String → V → Dict V → Dict V
  unfolding has_key assign
  insert k v m = if has_key k m then m else assign k v m

  pub find-assign :
      (k j : String) (v : V) (m : Dict V)
      → find j (assign k v m) ≡ (if k == j then some v else find j m)
  unfolding find assign
  find-assign k j v [] = refl
  find-assign k j v ((i, w) ∷ m) =
      ground (arith, eq_iff k j, eq_iff i k, eq_iff i j, find-assign k j v m)

  pub find-assign_self : (k : String) (v : V) (m : Dict V) → find k (assign k v m) ≡ some v
  find-assign_self k v m = simp (find-assign, eq_refl)

  pub has_key-assign :
      (k j : String) (v : V) (m : Dict V)
      → has_key j (assign k v m) ≡ (if k == j then true else has_key j m)
  unfolding has_key
  has_key-assign k j v m = ground (arith, find-assign k j v m)

  pub has_key-eq-false : (k : String) (m : Dict V) → has_key k m ≡ false → find k m ≡ none
  unfolding has_key
  has_key-eq-false k m h = ground arith
