-- ===== src/Toy/Generation/Complete.antt =====
-- Generate with a PDF and discrete variables that are drawn in every round.
use doo_fit.Base.{
  ℕ, suc, String, Bool, true, false, none, some, List, [], ◌∷◌, length, All, ℤ, pos, pos_part, inl,
  inr, ◌≡◌, refl, sym, subst, ◌∙◌, arith,
}
use doo_fit.Config.Distribution.{DiscreteProbabilityDistribution}
use doo_fit.Toy.Factory.Datasets.{RooDataSet, RooFit, Error, ok, throw, deletes_own_columns}
use doo_fit.Toy.Factory.Append as append
use doo_fit.Toy.Factory.Append.{Has, Unique}
use doo_fit.Toy.Factory.Merge.{merge_datasets_lem}
use doo_fit.Toy.Factory.Discrete.{Observable, RooVariables, Values}
use doo_fit.Toy.Factory.Columns.{wanted}
use doo_fit.Toy.Factory.Sampled.{Found, names_of, values_of, generate_discrete_sample_lem}
use doo_fit.Toy.Factory.Sampled as sampled
use doo_fit.Toy.Generation.Pdf.{Pdf, Double, Generator, Random}
use doo_fit.Toy.Generation.Laws.{Laws}
use doo_fit.Toy.Generation.Plain.{IsPlain, columns_of}
use doo_fit.Toy.Generation.Products.{product-rows}
use doo_fit.Toy.Generation.Generate.{
  Order, Settings, pdf_data, discrete_data, combine, add_discrete, save_parameters, generate,
}
use doo_fit.Toy.Generation.Draws.{IsAlwaysDrawn, length-wanted, not-ltb}

-- A PDF and distributions are set, with a fixed size, and no parameters are read.
abbrev pub settings :
    {D : Type 0}
    → Pdf D
    → List (Observable D)
    → D
    → List (DiscreteProbabilityDistribution D)
    → Bool
    → Order
    → Settings D
settings p obs y ds saves order = record {
  generation_pdf = some p;
  observables = some obs;
  expected_yield = y;
  size_fixed = true;
  distributions = ds;
  read_file = none;
  saves_parameters = saves;
  constraining_pdfs = none;
  order = order;
}

module _ {D : Type 0} (double : Double D) (roo : RooFit (Values D)) (gen : Generator D (Values D))
    (proto_sample : Pdf D → (section : String) (size : ℤ) → Random (RooDataSet (Values D)))
    (vars : RooVariables D) (uniform : (use_number : ℕ) → ℕ → D)
    (position : (use_number : ℕ) → ℕ → ℕ) (order : Order) (rows : append.Laws roo)
    (laws : Laws roo rows gen) where
  open double use {of_int, truncate, iround, too_large}
  open gen use {observables}

  pdf_data_lem :
      (p : Pdf D) (obs : List (Observable D)) (y : D)
      (ds : List (DiscreteProbabilityDistribution D)) (saves : Bool) (k : ℕ)
      → IsPlain observables p
      → too_large y ≡ false
      → (d : RooDataSet (Values D)) × (k' : ℕ) × (pdf_data double roo gen [] proto_sample vars
            uniform position
            (settings p obs y ds saves order)
            k
          ≡ ok (some d, k'))
        × (d.columns ≡ columns_of observables p)
        × (length d.rows ≡ pos_part (iround y))
  unfolding pdf_data
  pdf_data_lem p obs y ds saves k plain int =
      let (d, k', made, filled) =
        product-rows double roo gen proto_sample rows laws p y k plain int in
      (d, k', rw (made, pdf_data) refl, filled.0, filled.1)

  discrete_data_lem :
      (p : Pdf D) (obs os : List (Observable D)) (y : D)
      (ds : List (DiscreteProbabilityDistribution D)) (saves : Bool) (d : RooDataSet (Values D))
      (k : ℕ)
      → ((n : ℕ) → truncate (of_int (pos n)) ≡ pos n)
      → Found vars obs ds os
      → Unique (names_of os)
      → discrete_data double roo gen [] proto_sample vars uniform position
          (settings p obs y ds saves order)
          (some d)
          k
        ≡ ok (
          (
            of_int (pos (length d.rows)),
            record {
              columns = names_of os;
              rows =
                  wanted vars
                    (uniform k)
                    (sampled.variables vars ds os)
                    (values_of os)
                    (length d.rows)
                    0;
            },
          ),
          suc k,
        )
  unfolding discrete_data
  discrete_data_lem p obs os y ds saves d k exact found unique =
      rw
        (
          exact (length d.rows),
          generate_discrete_sample_lem vars (uniform k) obs ds os (pos (length d.rows)) found
              unique,
        )
        refl

  combine_lem :
      (fuel n k : ℕ) (d e : RooDataSet (Values D)) (y : D)
      → All (λ c. ¬ Has d.columns c) e.columns
      → length d.rows ≡ n
      → length e.rows ≡ n
      → combine double roo gen [] proto_sample vars uniform position fuel (some d) y e k
        ≡ some (throw deletes_own_columns)
  unfolding combine
  combine_lem fuel n k d e y apart dl el = elim (merge_datasets_lem roo d e none) [
    | inl (same, free, merged) ↦
        rw (not-ltb (length e.rows) (length d.rows) (omega arith), merged) refl
    | inr (inl other, thrown) ↦ absurd (other (dl ∙ sym el))
    | inr (inr common, thrown) ↦ absurd (common apart)
  ]

  generate_run :
      (fuel k k' : ℕ) (p : Pdf D) (obs : List (Observable D)) (y : D)
      (d : DiscreteProbabilityDistribution D) (ds : List (DiscreteProbabilityDistribution D))
      (saves : Bool) (a : RooDataSet (Values D)) (e : Error)
      → pdf_data double roo gen [] proto_sample vars uniform position
          (settings p obs y (d ∷ ds) saves order)
          k
        ≡ ok (some a, k')
      → add_discrete double roo gen [] proto_sample vars uniform position fuel
          (settings p obs y (d ∷ ds) saves order)
          (some a)
          k'
        ≡ some (throw e)
      → generate double roo gen [] proto_sample vars uniform position fuel
          (settings p obs y (d ∷ ds) saves order)
          k
        ≡ some (throw e)
  unfolding generate save_parameters
  generate_run fuel k k' p obs y d ds saves a e made added =
      rw (made, generate) (rw (added, generate) refl)

  add_discrete_run :
      (fuel k k' : ℕ) (s : Settings D) (a b : RooDataSet (Values D)) (y : D)
      → discrete_data double roo gen [] proto_sample vars uniform position s (some a) k
        ≡ ok ((y, b), k')
      → add_discrete double roo gen [] proto_sample vars uniform position fuel s (some a) k
        ≡ combine double roo gen [] proto_sample vars uniform position fuel (some a) y b k'
  unfolding add_discrete
  add_discrete_run fuel k k' s a b y made = rw (made, add_discrete) refl

  -- Generate with a PDF that is generated directly, or a product of such, and with distributions of
  -- other observables: if the sizes are not drawn and every random number draws the first variable, the
  -- discrete data has as many entries as the data of the PDF and is merged into it, and then Generate
  -- deletes the columns of the data set that it returns. The distributions name distinct observables
  -- that are real variables or categories; the rounded yield is an int, there is no proto data and no
  -- constraining PDF, no file is read, and a number of rows as a double and back is that number.
  pub generate_deletes :
      (fuel k : ℕ) (p : Pdf D) (obs : List (Observable D)) (y : D)
      (d : DiscreteProbabilityDistribution D) (ds : List (DiscreteProbabilityDistribution D))
      (o : Observable D) (os : List (Observable D)) (saves : Bool)
      → IsPlain observables p
      → too_large y ≡ false
      → Found vars obs (d ∷ ds) (o ∷ os)
      → Unique (names_of (o ∷ os))
      → All (λ c. ¬ Has (columns_of observables p) c) (names_of (o ∷ os))
      → ((n : ℕ) → IsAlwaysDrawn vars (uniform n) d)
      → ((n : ℕ) → truncate (of_int (pos n)) ≡ pos n)
      → generate double roo gen [] proto_sample vars uniform position fuel
          (settings p obs y (d ∷ ds) saves order)
          k
        ≡ some (throw deletes_own_columns)
  generate_deletes fuel k p obs y d ds o os saves plain int found unique apart drawn exact =
      let (a, k', made, ac, al) = pdf_data_lem p obs y (d ∷ ds) saves k plain int in
      let n = length a.rows in
      let draws =
        wanted vars (uniform k') (sampled.variables vars (d ∷ ds) (o ∷ os)) (values_of (o ∷ os)) n
          0 in
      let b : RooDataSet (Values D) = record { columns = names_of (o ∷ os); rows = draws } in
      let bl =
        length-wanted vars (uniform k') (sampled.disc_var vars d o) (sampled.variables vars ds os)
          (values_of (o ∷ os)) n 0 (drawn k') in
      let apart' = subst (λ cs. All (λ c. ¬ Has cs c) (names_of (o ∷ os))) (sym ac) apart in
      let added =
        add_discrete_run fuel k' (suc k') (settings p obs y (d ∷ ds) saves order) a b
          (of_int (pos n))
          (discrete_data_lem p obs (o ∷ os) y (d ∷ ds) saves a k' exact found unique)
        ∙ combine_lem fuel n (suc k') a b (of_int (pos n)) apart' refl bl in
      generate_run fuel k k' p obs y d ds saves a deletes_own_columns made added
