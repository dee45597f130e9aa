-- ===== src/Toy/Generation/Rounding.antt =====
-- The correction of rounding in GenerateForAddedPdf.
use doo_fit.Base.{
  ◌+◌, ◌*◌, ◌/◌, ◌≤◌, Bool-cases, true, false, ℤ, pos, negsuc, pos_part, neg_part, +ℤ_parts,
  -ℤ_parts, inl, inr, ◌⊎◌, ◌≡◌, ◌≢◌, refl, ap, arith,
}
use doo_fit.Toy.Factory.Datasets.{ok}
use doo_fit.Toy.Generation.Pdf.{Double}
use doo_fit.Toy.Generation.Exact.{Exact}
use doo_fit.Toy.Generation.Yields.{is_some_events, correct_rounding}

parts_exclude : (a : ℤ) → (pos_part a ≡ 0) ⊎ (neg_part a ≡ 0)
parts_exclude (pos n) = inr refl
parts_exclude (negsuc n) = inl refl

no_events : (n : ℤ) → is_some_events n ≡ false → (pos_part n ≡ 0) × (neg_part n ≡ 0)
no_events (pos n) h = ground arith
no_events (negsuc n) h = ground arith

parts_eq : (a b : ℤ) → pos_part a ≡ pos_part b → neg_part a ≡ neg_part b → a ≡ b
parts_eq a b h k = ground arith

module _ {D : Type 0} (double : Double D) (exact : Exact double) where
  open double use {half, of_int, add, sub, neg, abs, iround, equal}
  open exact use {
    value, value_half, value_int, value_add, value_sub, value_neg, value_abs, equal_iff, in_range,
    nearest,
  }

  abbrev pub IsHalf : D → Type 0
  IsHalf a = pos_part (value a) + neg_part (value a) ≤ 500

  -- What is lost after a part, before the correction.
  abbrev loss : D → D → D
  loss y l = add l (sub y (of_int (iround y)))

  add_parts :
      (a b : D)
      → pos_part (value (add a b)) + neg_part (value a) + neg_part (value b)
        ≡ neg_part (value (add a b)) + pos_part (value a) + pos_part (value b)
  add_parts a b = rw (value_add a b) (+ℤ_parts (value a) (value b))

  sub_parts :
      (a b : D)
      → pos_part (value (sub a b)) + neg_part (value a) + pos_part (value b)
        ≡ neg_part (value (sub a b)) + pos_part (value a) + neg_part (value b)
  sub_parts a b = rw (value_sub a b) (-ℤ_parts (value a) (value b))

  loss_lem :
      (y l : D)
      → neg_part (value y) ≡ 0
      → pos_part (value (loss y l))
          + neg_part (value l)
          + 1000 * ((pos_part (value y) + 500) / 1000)
        ≡ neg_part (value (loss y l)) + pos_part (value l) + pos_part (value y)
  loss_lem y l nonneg = omega (
    arith,
    add_parts l (sub y (of_int (iround y))),
    sub_parts y (of_int (iround y)),
    value_int (iround y),
    nearest y,
  )

  equal-half : (a : D) → equal (abs a) half ≡ false → pos_part (value a) + neg_part (value a) ≢ 500
  equal-half a h e = cc ((equal_iff (abs a) half).1 (rw (value_abs a, value_half, e) refl))

  half-equal : (a : D) → equal (abs a) half ≡ true → pos_part (value a) + neg_part (value a) ≡ 500
  half-equal a h =
      let e = (equal_iff (abs a) half).0 h in
      let p = rw (value_abs a, value_half) at e in ap pos_part p

  abbrev Corrected : D → D → D × D → Type 0
  Corrected y l (y', l') =
      (pos_part (value l') + neg_part (value l) + 1000 * pos_part (iround y')
        ≡ neg_part (value l') + pos_part (value l) + pos_part (value y))
      × IsHalf l'

  Corrected-kept :
      (y l : D) → neg_part (value y) ≡ 0 → IsHalf (loss y l) → Corrected y l (y, loss y l)
  Corrected-kept y l nonneg h = (omega (arith, loss_lem y l nonneg, nearest y), h)

  -- With the integer that makes good for the loss.
  Corrected-whole :
      (y l : D) (n : ℤ)
      → neg_part (value y) ≡ 0
      → IsHalf l
      → pos_part n ≡ (pos_part (value (loss y l)) + 500) / 1000
      → neg_part n ≡ (neg_part (value (loss y l)) + 500) / 1000
      → pos_part (value (loss y l)) + neg_part (value (loss y l)) ≢ 500
      → Corrected y l (add y (of_int n), neg (sub (of_int n) (loss y l)))
  Corrected-whole y l n nonneg small p q other =
      let bounds = loss_lem y l nonneg in
      let new_yield = add_parts y (of_int n) in
      let new_loss = sub_parts (of_int n) (loss y l) in
      let negated = value_neg (sub (of_int n) (loss y l)) in
      let whole = value_int n in
      let rounded = nearest (add y (of_int n)) in
      let apart = parts_exclude (value (loss y l)) in
      let apart' = parts_exclude (value (add y (of_int n))) in
      let apart'' = parts_exclude (value (sub (of_int n) (loss y l))) in (omega arith, omega arith)

  pub correct_rounding-Corrected :
      (y l : D)
      → neg_part (value y) ≡ 0
      → IsHalf l
      → (c : D × D) × (correct_rounding double y l ≡ ok c) × Corrected y l c
  unfolding correct_rounding
  correct_rounding-Corrected y l nonneg small =
      elim (Bool-cases (is_some_events (iround (loss y l)))) [
        | inl some ↦ elim (Bool-cases (equal (abs (loss y l)) half)) [
          | inl h ↦ (
            (y, loss y l),
            rw (in_range y, in_range (loss y l), some, h) refl,
            Corrected-kept y l nonneg (omega (arith, half-equal (loss y l) h)),
          )
          | inr h ↦ (
            (add y (of_int (iround (loss y l))), neg (sub (of_int (iround (loss y l))) (loss y l))),
            rw (in_range y, in_range (loss y l), some, h) refl,
            Corrected-whole y l (iround (loss y l)) nonneg small (nearest (loss y l)).0
                (nearest (loss y l)).1 (equal-half (loss y l) h),
          )
        ]
        | inr none ↦ (
          (y, loss y l),
          rw (in_range y, in_range (loss y l), none) refl,
          Corrected-kept y l nonneg (
              omega (
                arith,
                no_events (iround (loss y l)) none,
                nearest (loss y l),
                parts_exclude (value (loss y l)),
              )),
        )
      ]
