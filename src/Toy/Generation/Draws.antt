-- ===== src/Toy/Generation/Draws.antt =====
-- The rows of GenerateDiscreteSample where the first variable is drawn in every round.
use doo_fit.Base.{
  ℕ, zero, suc, ◌*◌, ◌≤◌, ltb, true, false, none, List, [], ◌∷◌, length, ◌≡◌, ◌≢◌, refl, arith,
}
use doo_fit.Config.Distribution.{DiscreteProbabilityDistribution}
use doo_fit.Toy.Factory.Datasets.{join_rows}
use doo_fit.Toy.Factory.Discrete.{DiscVar, RooVariables, walk}
use doo_fit.Toy.Factory.Columns.{any_drawn, wanted}

module _ {D : Type 0} (vars : RooVariables D) (uniform : ℕ → D) where
  -- The first variable is drawn in every round.
  abbrev pub IsAlwaysDrawn : DiscreteProbabilityDistribution D → Type 0
  IsAlwaysDrawn d = (t : ℕ) → walk vars (uniform t) d.probabilities ≢ none

  any_drawn-first :
      (v : DiscVar D) (vs : List (DiscVar D)) (t : ℕ)
      → walk vars (uniform t) v.probabilities ≢ none
      → any_drawn vars uniform (v ∷ vs) t ≡ true
  any_drawn-first v vs t drawn = ground (arith)

  pub length-wanted :
      (v : DiscVar D) (vs : List (DiscVar D)) (xs : List D) (n i : ℕ)
      → ((t : ℕ) → walk vars (uniform t) v.probabilities ≢ none)
      → length (wanted vars uniform (v ∷ vs) xs n i) ≡ n
  length-wanted v vs xs zero i drawn = refl
  length-wanted v vs xs (suc n) i drawn =
      rw (any_drawn-first v vs (i * suc (length vs)) (drawn (i * suc (length vs))))
        (omega (arith, length-wanted v vs xs n (suc i) drawn))

pub not-ltb : (m n : ℕ) → n ≤ m → ltb m n ≡ false
not-ltb m n h = ground arith

pub length-join_rows :
    {Row : Type 0} (f : Row → Row → Row) (n : ℕ) (xs ys : List Row)
    → length xs ≡ n
    → length ys ≡ n
    → length (join_rows f xs ys) ≡ n
unfolding join_rows
length-join_rows f n [] ys e g = e
length-join_rows f n (x ∷ xs) [] e g = absurd (omega arith)
length-join_rows f n (x ∷ xs) (y ∷ ys) e g =
    omega (arith, length-join_rows f (length xs) xs ys refl (omega arith))
