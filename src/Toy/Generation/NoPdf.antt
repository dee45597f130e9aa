-- ===== src/Toy/Generation/NoPdf.antt =====
-- Generate where no PDF is set.
use mathlib.Core.Option
use doo_fit.Base.{ℕ, String, Bool, true, false, Option, none, some, List, [], ℤ, ◌≡◌, ◌≢◌, refl}
use doo_fit.Config.Distribution.{DiscreteProbabilityDistribution}
use doo_fit.Toy.Factory.Datasets.{
  RooDataSet, RooFit, Result, ok, throw, not_generating_data, pdf_not_set,
}
use doo_fit.Toy.Factory.Discrete.{Observable, RooVariables, Values}
use doo_fit.Toy.Generation.Pdf.{Pdf, Double, Generator, Random}
use doo_fit.Toy.Generation.Generate.{
  Order, Settings, arguments, get_parameters, read_parameters_from_file,
  draw_constrained_parameters, pdf_data, save_parameters, with_data, with_parameters, generate,
}

-- The settings, but for the PDF.
abbrev pub no_pdf :
    {D : Type 0}
    → Option (List (Observable D))
    → D
    → (size_fixed : Bool) → List (DiscreteProbabilityDistribution D)
    → (read_file : Option Bool) (saves : Bool) (constraining : Option ℕ) → Order
    → Settings D
no_pdf obs y fixed ds read saves constraining order = record {
  generation_pdf = none;
  observables = obs;
  expected_yield = y;
  size_fixed = fixed;
  distributions = ds;
  read_file = read;
  saves_parameters = saves;
  constraining_pdfs = constraining;
  order = order;
}

module _ {D : Type 0} (double : Double D) (roo : RooFit (Values D)) (gen : Generator D (Values D))
    (proto_sections : List (String × String))
    (proto_sample : Pdf D → (section : String) (size : ℤ) → Random (RooDataSet (Values D)))
    (vars : RooVariables D) (uniform : (use_number : ℕ) → ℕ → D)
    (position : (use_number : ℕ) → ℕ → ℕ) (y : D) (fixed : Bool) (read : Option Bool)
    (constraining : Option ℕ) (order : Order) where
  save_parameters-throw :
      (obs : Option (List (Observable D))) (ds : List (DiscreteProbabilityDistribution D))
      (first : Bool) (x : Option (Result (RooDataSet (Values D) × ℕ)))
      (r : RooDataSet (Values D) × ℕ)
      → order.saving ≡ first
      → Option.map
          (save_parameters double roo gen proto_sections proto_sample vars uniform position
            (no_pdf obs y fixed ds read true constraining order))
          x
        ≢ some (ok r)
  unfolding save_parameters get_parameters arguments
  save_parameters-throw obs ds first none r o e = cc
  save_parameters-throw (some os) ds first (some (ok q)) r o e = cc
  save_parameters-throw none ds true (some (ok q)) r o e = let e' = rw o at e in cc
  save_parameters-throw none ds false (some (ok q)) r o e = let e' = rw o at e in cc
  save_parameters-throw obs ds first (some (throw q)) r o e = cc

  with_data-throw :
      (fuel : ℕ) (obs : Option (List (Observable D)))
      (ds : List (DiscreteProbabilityDistribution D))
      (x : Result (Option (RooDataSet (Values D)) × ℕ)) (r : RooDataSet (Values D) × ℕ)
      → with_data double roo gen proto_sections proto_sample vars uniform position fuel
          (no_pdf obs y fixed ds read true constraining order)
          x
        ≢ some (ok r)
  unfolding with_data
  with_data-throw fuel obs ds (throw q) r = λ e. cc
  with_data-throw fuel obs ds (ok (d, k)) r = save_parameters-throw obs ds order.saving _ r refl

  with_parameters-throw :
      (fuel : ℕ) (obs : Option (List (Observable D)))
      (ds : List (DiscreteProbabilityDistribution D)) (x : Result (Unit {0} × ℕ))
      (r : RooDataSet (Values D) × ℕ)
      → with_parameters double roo gen proto_sections proto_sample vars uniform position fuel
          (no_pdf obs y fixed ds read true constraining order)
          x
        ≢ some (ok r)
  unfolding with_parameters
  with_parameters-throw fuel obs ds (throw q) r = λ e. cc
  with_parameters-throw fuel obs ds (ok (u, k)) r = with_data-throw fuel obs ds _ r

  generate-saves :
      (fuel k : ℕ) (obs : Option (List (Observable D)))
      (ds : List (DiscreteProbabilityDistribution D)) (x : Result (Unit {0}))
      (r : RooDataSet (Values D) × ℕ)
      → read_parameters_from_file (no_pdf obs y fixed ds read true constraining order) ≡ x
      → generate double roo gen proto_sections proto_sample vars uniform position fuel
          (no_pdf obs y fixed ds read true constraining order)
          k
        ≢ some (ok r)
  unfolding generate
  generate-saves fuel k obs ds (throw q) r read e = let e' = rw read at e in cc
  generate-saves fuel k obs ds (ok u) r read e =
      with_parameters-throw fuel obs ds _ r (rw read at e)

module _ {D : Type 0} (double : Double D) (roo : RooFit (Values D)) (gen : Generator D (Values D))
    (proto_sections : List (String × String))
    (proto_sample : Pdf D → (section : String) (size : ℤ) → Random (RooDataSet (Values D)))
    (vars : RooVariables D) (uniform : (use_number : ℕ) → ℕ → D)
    (position : (use_number : ℕ) → ℕ → ℕ) where
  nothing_generated :
      (fuel k : ℕ) (os : List (Observable D)) (y : D) (fixed : Bool) (read : Option Bool)
      (saves : Bool) (order : Order)
      → generate double roo gen proto_sections proto_sample vars uniform position fuel
          (no_pdf (some os) y fixed [] read saves none order)
          k
        ≡ some (throw not_generating_data)
  unfolding generate pdf_data get_parameters arguments
  nothing_generated fuel k os y fixed none saves order = refl
  nothing_generated fuel k os y fixed (some false) saves order = refl
  nothing_generated fuel k os y fixed (some true) saves order = refl

  nothing_drawn :
      (fuel k n : ℕ) (os : List (Observable D)) (y : D) (fixed : Bool)
      (ds : List (DiscreteProbabilityDistribution D)) (saves : Bool) (order : Order)
      → generate double roo gen proto_sections proto_sample vars uniform position fuel
          (no_pdf (some os) y fixed ds none saves (some n) order)
          k
        ≡ some (throw pdf_not_set)
  unfolding generate draw_constrained_parameters get_parameters arguments
  nothing_drawn fuel k n os y fixed ds saves order = refl

  -- Generate with no PDF, in whatever order the compiler evaluates: where the observables are set, it
  -- throws NotGeneratingDataException if there are no constraining PDFs and no distributions, and
  -- PdfNotSetException leaves it if there is a set of constraining PDFs and no file to read, also with
  -- distributions; and where the parameters are to be saved, it never returns a data set, whatever
  -- the other settings.
  pub generate-no_pdf :
      (fuel k n : ℕ) (os : List (Observable D)) (obs : Option (List (Observable D))) (y : D)
      (fixed : Bool) (ds : List (DiscreteProbabilityDistribution D)) (read : Option Bool)
      (saves : Bool) (constraining : Option ℕ) (order : Order)
      → (generate double roo gen proto_sections proto_sample vars uniform position fuel
            (no_pdf (some os) y fixed [] read saves none order)
            k
          ≡ some (throw not_generating_data))
        × (generate double roo gen proto_sections proto_sample vars uniform position fuel
              (no_pdf (some os) y fixed ds none saves (some n) order)
              k
            ≡ some (throw pdf_not_set))
        × ((r : RooDataSet (Values D) × ℕ)
            → generate double roo gen proto_sections proto_sample vars uniform position fuel
                (no_pdf obs y fixed ds read true constraining order)
                k
              ≢ some (ok r))
  generate-no_pdf fuel k n os obs y fixed ds read saves constraining order = (
    nothing_generated fuel k os y fixed read saves order,
    nothing_drawn fuel k n os y fixed ds saves order,
    λ r.
        generate-saves double roo gen proto_sections proto_sample vars uniform position y fixed read
          constraining order fuel k obs ds _ r refl,
  )
