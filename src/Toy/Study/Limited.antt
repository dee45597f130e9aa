-- ===== src/Toy/Study/Limited.antt =====
-- The first elements of a list, as a limit allows.
use doo_fit.Base.{
  ℕ, zero, suc, ◌-◌, ◌<◌, true, false, List, [], ◌∷◌, ℤ, pos, negsuc, ◌≡◌, refl, ap, ◌∙◌, arith,
}
use doo_fit.Toy.Study.Reading.{limit_reached}

module _ {A : Type 0} where
  abbrev take : ℕ → List A → List A
  take zero xs = []
  take (suc n) [] = []
  take (suc n) (x ∷ xs) = x ∷ take n xs

  -- What a limit leaves of a list: no limit if it is not positive.
  abbrev pub limited : ℤ → List A → List A
  limited (pos (suc n)) xs = take (suc n) xs
  limited _ xs = xs

  -- What is left of it once some are stored.
  abbrev pub left : ℤ → ℕ → List A → List A
  left (pos (suc n)) stored xs = take (suc n - stored) xs
  left _ stored xs = xs

  take_more : (n : ℕ) (x : A) (xs : List A) → 0 < n → take n (x ∷ xs) ≡ x ∷ take (n - 1) xs
  take_more zero x xs h = absurd (omega arith)
  take_more (suc n) x xs h = ap (λ k. x ∷ take k xs) (omega arith)

  take_nil : (n : ℕ) → take n [] ≡ []
  take_nil zero = refl
  take_nil (suc n) = refl

  pub left-cons :
      (limit : ℤ) (stored : ℕ) (x : A) (xs : List A)
      → limit_reached limit stored ≡ false
      → left limit stored (x ∷ xs) ≡ x ∷ left limit (suc stored) xs
  left-cons (pos zero) stored x xs h = refl
  left-cons (pos (suc n)) stored x xs h =
      take_more (suc n - stored) x xs (ground arith) ∙ ap (λ k. x ∷ take k xs) (omega arith)
  left-cons (negsuc n) stored x xs h = refl

  pub left_reached :
      (limit : ℤ) (stored : ℕ) (xs : List A)
      → limit_reached limit stored ≡ true
      → left limit stored xs ≡ []
  left_reached (pos zero) stored xs h = cc
  left_reached (pos (suc n)) stored xs h =
      let e : suc n - stored ≡ 0 = ground arith in ap (λ k. take k xs) e
  left_reached (negsuc n) stored xs h = absurd (ground arith)

  pub left_nil : (limit : ℤ) (stored : ℕ) → left limit stored [] ≡ []
  left_nil (pos zero) stored = refl
  left_nil (pos (suc n)) stored = take_nil (suc n - stored)
  left_nil (negsuc n) stored = refl

  pub left_zero : (limit : ℤ) (xs : List A) → left limit 0 xs ≡ limited limit xs
  left_zero (pos zero) xs = refl
  left_zero (pos (suc n)) xs = let e : suc n - 0 ≡ suc n = omega arith in ap (λ k. take k xs) e
  left_zero (negsuc n) xs = refl
