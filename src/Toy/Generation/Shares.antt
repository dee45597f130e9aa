-- ===== src/Toy/Generation/Shares.antt =====
-- The yields that GenerateForAddedPdf computes for the parts of a RooAddPdf.
use doo_fit.Base.{ℕ, ◌+◌, List, [], ◌∷◌, pos_part, neg_part, ◌≡◌, refl}
use doo_fit.Toy.Factory.Datasets.{Result, ok, throw, ◌>>=◌}
use doo_fit.Toy.Generation.Pdf.{Pdf, Pdfs, nil, cons, Double}
use doo_fit.Toy.Generation.Yields.{Context, next_coef, sub_yield}
use doo_fit.Toy.Generation.Exact.{Exact}

-- What a computation and its continuation return, where both succeed.
bind_parts :
    {A B : Type 0} {y : B} (next : A → Result B) (first : Result A)
    → (first >>= next) ≡ ok y
    → (x : A) × (next x ≡ ok y) × (first ≡ ok x)
bind_parts next (throw t) both = cc
bind_parts next (ok x) both = (x, both, refl)

-- One yield for each part, from the coefficients that are left and the sum of the others.
module _ {D Row : Type 0} (double : Double D) (events : Pdf D → D) (c : Context D Row) where
  unfoldable pub part_yields : Pdfs D → List D → D → Result (List D)
  part_yields nil coefs sum = ok []
  part_yields (cons p ps) coefs sum = next_coef double events c p coefs sum >>= λ x.
      part_yields ps x.1 x.2 >>= λ ys. ok (sub_yield double c x.0 ∷ ys)

  pub part_yields-nil :
      (coefs : List D) (sum : D) (ys : List D) → part_yields nil coefs sum ≡ ok ys → [] ≡ ys
  unfolding part_yields
  part_yields-nil coefs sum ys e = cc

  -- The first round, from the result.
  pub part_yields-cons :
      (p : Pdf D) (ps : Pdfs D) (coefs : List D) (sum : D) (ys : List D)
      → part_yields (cons p ps) coefs sum ≡ ok ys
      → (x : D × List D × D) × (ys' : List D) × (next_coef double events c p coefs sum ≡ ok x)
        × (part_yields ps x.1 x.2 ≡ ok ys')
        × (ys ≡ sub_yield double c x.0 ∷ ys')
  unfolding part_yields
  part_yields-cons p ps coefs sum ys e =
      let (x, rest, next) = bind_parts _ (next_coef double events c p coefs sum) e in
      let (ys', same, others) = bind_parts _ (part_yields ps x.1 x.2) rest in
      (x, ys', next, others, cc)

module _ {D : Type 0} {double : Double D} (exact : Exact double) where
  -- The sum of yields, in thousandths.
  unfoldable pub total : List D → ℕ
  total [] = 0
  total (y ∷ ys) = pos_part (exact.value y) + total ys

  abbrev pub NotNegative : D → Type 0
  NotNegative y = neg_part (exact.value y) ≡ 0
