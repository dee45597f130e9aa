-- ===== src/Toy/Generation/Yields.antt =====
-- The yields of the parts of a PDF, and the proto data that each part gets, in GenerateForPdf and
-- GenerateForAddedPdf.
use doo_fit.Base.{
  ℕ, zero, suc, Bool, ◌&&◌, ◌||◌, not, Option, none, some, List, [], ◌∷◌, ℤ, pos, negsuc, ltb_ℤ,
  if◌then◌else◌,
}
use doo_fit.Toy.Factory.Datasets.{RooDataSet, Result, ok, throw, ◌>>=◌, terminated, null_pointer}
use doo_fit.Toy.Generation.Pdf.{Pdf, Server, real_var, Double, rounded}

-- The variables of the loop of GenerateForAddedPdf: the data, the coefficients not yet used and the
-- sum of the others, the position in the proto data, and yield_lost_due_rounding.
pub record Loop (D Row : Type 0) : Type 0 where
  pub sampled : Option (RooDataSet Row)
  pub coefs : List D
  pub sum_coef : D
  pub proto_pos : ℤ
  pub lost : D

-- What does not change in that loop: the PDF, whether it is extended and relies on its parts for
-- yields, whether it is extended with coefficients, the expected yield, whether sizes are drawn, and
-- the proto data.
pub record Context (D Row : Type 0) : Type 0 where
  pub whole : Pdf D
  pub pdf_extended : Bool
  pub must_be_extended : Bool
  pub expected_yield : D
  pub size_drawn : Bool
  pub proto : Option (RooDataSet Row)

module _ {D : Type 0} where
  -- The yield of a RooExtendPdf: of server 1, else of server 0.
  unfoldable pub yield_of : Server D → Server D → Result D
  yield_of (real_var y) s = ok y
  yield_of _ (real_var y) = ok y
  yield_of _ _ = throw terminated

module _ {D Row : Type 0} (double : Double D) where
  open double use {
    zero_, half, one, margin, of_int, add, sub, mul, div, neg, abs, truncate, less, equal,
  }

  -- The next coefficient, with the coefficients that are left and the new sum.
  unfoldable pub next_coef :
      (Pdf D → D)
      → Context D Row
      → Pdf D
      → (coefs : List D) (sum_coef : D) → Result (D × List D × D)
  next_coef events c part coefs sum_coef =
      if c.pdf_extended
      then ok (div (events part) (events c.whole), coefs, sum_coef)
      else elim coefs [
        | [] ↦
            if c.must_be_extended
            then throw null_pointer
            else ok (sub one sum_coef, [], add sum_coef (sub one sum_coef))
        | k ∷ ks ↦ ok (k, ks, if c.must_be_extended then sum_coef else add sum_coef k)
      ]

  unfoldable pub sub_yield : Context D Row → D → D
  sub_yield c coef =
      if not c.pdf_extended && c.must_be_extended then coef else mul coef c.expected_yield

  -- The rows of the proto data from number `i` on while their number is below a bound.
  unfoldable rows_below : D → ℕ → List Row → Result (List Row)
  rows_below bound i [] = if less (of_int (pos i)) bound then throw null_pointer else ok []
  rows_below bound i (r ∷ rs) = elim (rows_below bound (suc i) rs) [
    | ok xs ↦ if less (of_int (pos i)) bound then ok (r ∷ xs) else ok []
    | throw e ↦ if less (of_int (pos i)) bound then throw e else ok []
  ]

  abbrev pub drop : ℕ → List Row → List Row
  drop zero rs = rs
  drop (suc n) [] = []
  drop (suc n) (r ∷ rs) = drop n rs

  unfoldable rows_from : D → ℤ → List Row → Result (List Row)
  unfolding rows_below
  rows_from bound (pos i) rs = rows_below bound i (drop i rs)
  rows_from bound (negsuc i) rs =
      if less (of_int (negsuc i)) bound then throw null_pointer else ok []

  -- sub_proto_dataset, 5% larger than the yield, and the new position.
  unfoldable pub sub_protos : Option (RooDataSet Row) → D → ℤ → Result (List (RooDataSet Row) × ℤ)
  unfolding rows_from
  sub_protos none yield position = ok ([], position)
  sub_protos (some p) yield position =
      elim (rows_from (add (of_int position) (mul yield margin)) position p.rows) [
        | ok rs ↦ ok (record p { rows = rs } ∷ [], truncate (add (of_int position) yield))
        | throw e ↦ throw e
      ]

-- `TMath::Abs(add_roundup_yield) >= 1`
abbrev pub is_some_events : ℤ → Bool
is_some_events n = ltb_ℤ n (pos 0) || ltb_ℤ (pos 0) n

module _ {D : Type 0} (double : Double D) where
  open double use {half, of_int, add, sub, neg, abs, equal}

  -- What rounding loses is summed up, and made good for by whole events once it is more than a half:
  -- the yield and what is lost after it.
  unfoldable pub correct_rounding : D → D → Result (D × D)
  correct_rounding yield lost = rounded double yield >>= λ whole.
      let lost' = add lost (sub yield (of_int whole)) in
      rounded double lost' >>= λ n.
      if is_some_events n && not (equal (abs lost') half)
      then ok (add yield (of_int n), neg (sub (of_int n) lost'))
      else ok (yield, lost')
