-- ===== src/Toy/Study/BySeed.antt =====
-- The multimap of seeds.
use mathlib.Core.List.{Perm, perm_middle, append-nil}
use mathlib.Core.List.Perm
use doo_fit.Base.{true, false, List, [], ◌∷◌, ◌++◌, ℤ, ltb_ℤ, All, Bool-cases, inl, inr, ◌≡◌, arith}
use doo_fit.Toy.Study.Reading.{Container}
use doo_fit.Toy.Study.Evaluation.{SeedMap, insert_by_seed}

module _ {D : Type 0} where
  -- Sorted by seed.
  abbrev pub IsOrdered : SeedMap D → Type 0
  IsOrdered [] = Unit
  IsOrdered (x ∷ m) = All (λ y. ltb_ℤ y.0 x.0 ≡ false) m × IsOrdered m

  All-insert :
      (k j : ℤ) (c : Container D) (m : SeedMap D)
      → ltb_ℤ k j ≡ false
      → All (λ y. ltb_ℤ y.0 j ≡ false) m
      → All (λ y. ltb_ℤ y.0 j ≡ false) (insert_by_seed k c m)
  unfolding insert_by_seed
  All-insert k j c [] h a = (h, tt)
  All-insert k j c ((i, d) ∷ m) h a = elim (Bool-cases (ltb_ℤ k i)) [
    | inl t ↦ rw t (h, a)
    | inr t ↦ rw t (a.0, All-insert k j c m h a.1)
  ]

  All-above :
      (k j : ℤ) (m : SeedMap D)
      → ltb_ℤ k j ≡ true
      → All (λ y. ltb_ℤ y.0 j ≡ false) m
      → All (λ y. ltb_ℤ y.0 k ≡ false) m
  All-above k j [] h a = tt
  All-above k j ((i, d) ∷ m) h a = (ground arith, All-above k j m h a.1)

  insert_by_seed-IsOrdered :
      (k : ℤ) (c : Container D) (m : SeedMap D) → IsOrdered m → IsOrdered (insert_by_seed k c m)
  unfolding insert_by_seed
  insert_by_seed-IsOrdered k c [] o = (tt, tt)
  insert_by_seed-IsOrdered k c ((j, d) ∷ m) o = elim (Bool-cases (ltb_ℤ k j)) [
    | inl t ↦ rw t ((ground arith, All-above k j m t o.0), o)
    | inr t ↦ rw t (All-insert k j c m t o.0, insert_by_seed-IsOrdered k c m o.1)
  ]

  insert_by_seed-perm :
      (k : ℤ) (c : Container D) (m : SeedMap D) → Perm (insert_by_seed k c m) ((k, c) ∷ m)
  unfolding insert_by_seed
  insert_by_seed-perm k c [] = Perm.rfl
  insert_by_seed-perm k c ((j, d) ∷ m) = elim (Bool-cases (ltb_ℤ k j)) [
    | inl t ↦ rw t Perm.rfl
    | inr t ↦
        rw t (Perm.trans (Perm.cons (j, d) (insert_by_seed-perm k c m)) (Perm.swap (k, c) (j, d) m))
  ]

  abbrev pub keyed : List (Container D) → SeedMap D
  keyed [] = []
  keyed (c ∷ cs) = (c.seed, c) ∷ keyed cs

  abbrev pub insert_all : List (Container D) → SeedMap D → SeedMap D
  insert_all [] m = m
  insert_all (c ∷ cs) m = insert_all cs (insert_by_seed c.seed c m)

  pub insert_all-IsOrdered :
      (cs : List (Container D)) (m : SeedMap D) → IsOrdered m → IsOrdered (insert_all cs m)
  insert_all-IsOrdered [] m o = o
  insert_all-IsOrdered (c ∷ cs) m o =
      insert_all-IsOrdered cs (insert_by_seed c.seed c m) (insert_by_seed-IsOrdered c.seed c m o)

  pub insert_all-perm :
      (cs : List (Container D)) (m : SeedMap D) → Perm (insert_all cs m) (m ++ keyed cs)
  insert_all-perm [] m = rw (append-nil m) Perm.rfl
  insert_all-perm (c ∷ cs) m = Perm.trans (insert_all-perm cs (insert_by_seed c.seed c m)) (
      Perm.trans (Perm.append_right (keyed cs) (insert_by_seed-perm c.seed c m))
        (Perm.symm (perm_middle m (keyed cs))))
