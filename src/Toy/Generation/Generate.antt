-- ===== src/Toy/Generation/Generate.antt =====
-- Generate, which puts the data of a PDF and discrete variables together. Rows are values by the names
-- of variables. The values of parameters are part of RooFit: what a file or a constraining PDF sets them
-- to is left out, as is the writing of files.
use mathlib.Core.Option
use doo_fit.Base.{
  ℕ, zero, suc, ltb, String, Bool, true, false, not, Option, none, some, List, [], length, ℤ, pos,
  if◌then◌else◌,
}
use doo_fit.Config.Distribution.{DiscreteProbabilityDistribution}
use doo_fit.Toy.Study.Saving.{is_empty}
use doo_fit.Toy.Factory.Datasets.{
  RooDataSet, RooFit, Error, Result, ok, throw, terminated, not_generating_data, pdf_not_set,
  arg_set_not_set, deletes_own_columns, deref, merge_datasets, mix_merge_datasets,
}
use doo_fit.Toy.Factory.Discrete.{Observable, RooVariables, Values, generate_discrete_sample}
use doo_fit.Toy.Generation.Pdf.{Pdf, Double, Generator, Random, ◌>>=◌, lift, return, draw}
use doo_fit.Toy.Generation.Decompose.{generate_for_pdf}

-- The order in which the compiler evaluates the PDF and the observables in one expression, which the
-- language leaves open, at the four places where both are needed: whether the PDF is first.
pub record Order : Type 0 where
  pub reading : Bool
  pub drawing : Bool
  pub generating : Bool
  pub saving : Bool

-- What ToyFactoryStdConfig gives: none where the getter throws PdfNotSetException or
-- ArgSetNotSetException, or where no file is named; a file to read exists or does not; the number of
-- constraining PDFs, or none where their set is null; and the order of evaluation. The members of that
-- set are PDFs of real variables that are parameters of the PDF.
pub record Settings (D : Type 0) : Type 0 where
  pub generation_pdf : Option (Pdf D)
  pub observables : Option (List (Observable D))
  pub expected_yield : D
  pub size_fixed : Bool
  pub distributions : List (DiscreteProbabilityDistribution D)
  pub read_file : Option Bool
  pub saves_parameters : Bool
  pub constraining_pdfs : Option ℕ
  pub order : Order

abbrev or_throw : {A : Type 0} → Error → Option A → Result A
or_throw e none = throw e
or_throw e (some a) = ok a

-- The PDF and the observables; `first` says whether the PDF is evaluated first.
unfoldable pub arguments : {A B : Type 0} → Option A → Option B → (first : Bool) → Result (A × B)
arguments (some p) (some o) first = ok (p, o)
arguments (some p) none first = throw arg_set_not_set
arguments none (some o) first = throw pdf_not_set
arguments none none true = throw pdf_not_set
arguments none none false = throw arg_set_not_set

abbrev is_pdf_not_set : Error → Bool
is_pdf_not_set pdf_not_set = true
is_pdf_not_set _ = false

-- The loop of DrawConstrainedParameters over the constraining PDFs, each of which generates one entry.
unfoldable draw_each : Option Bool → ℕ → Random (Unit {0})
draw_each read zero = return tt
draw_each (some false) (suc n) = lift (throw not_generating_data)
draw_each none (suc n) = draw (λ k. tt) >>= λ u. draw_each none n
draw_each (some true) (suc n) = draw (λ k. tt) >>= λ u. draw_each (some true) n

module _ {D : Type 0} where
  -- `catch (const PdfNotSetException&)`: with nothing to generate either, NotGeneratingDataException.
  unfoldable without_pdf : Settings D → Error → Result (Unit {0})
  without_pdf s e =
      if not (is_pdf_not_set e)
      then throw e
      else if is_empty s.distributions
      then throw not_generating_data
      else ok tt

  -- `getParameters` needs the PDF and the observables.
  unfoldable pub get_parameters : Settings D → (first : Bool) → Result (Unit {0})
  unfolding arguments
  get_parameters s first = elim (arguments s.generation_pdf s.observables first) [
    | ok a ↦ ok tt
    | throw e ↦ throw e
  ]

  -- ReadParametersFromFile
  unfoldable pub read_parameters_from_file : Settings D → Result (Unit {0})
  unfolding without_pdf get_parameters
  read_parameters_from_file s = elim s.read_file [
    | none ↦ ok tt
    | some false ↦ throw not_generating_data
    | some true ↦ elim (get_parameters s s.order.reading) [
      | ok u ↦ ok u
      | throw e ↦ without_pdf s e
    ]
  ]

  -- DrawConstrainedParameters
  unfoldable pub draw_constrained_parameters : Settings D → Random (Unit {0})
  unfolding get_parameters draw_each
  draw_constrained_parameters s = elim s.constraining_pdfs [
    | none ↦ return tt
    | some n ↦ lift (get_parameters s s.order.drawing) >>= λ u. draw_each s.read_file n
  ]

module _ {D : Type 0} (double : Double D) (roo : RooFit (Values D)) (gen : Generator D (Values D))
    (proto_sections : List (String × String))
    (proto_sample : Pdf D → (section : String) (size : ℤ) → Random (RooDataSet (Values D)))
    (variables : RooVariables D) (uniform : (use_number : ℕ) → ℕ → D)
    (position : (use_number : ℕ) → ℕ → ℕ) where
  open double use {of_int, truncate, less}
  open gen use {poisson}

  -- The data of the PDF, or null.
  unfoldable pub pdf_data : Settings D → Random (Option (RooDataSet (Values D)))
  unfolding without_pdf arguments
  pdf_data s k =
      elim ((lift (arguments s.generation_pdf s.observables s.order.generating) >>= λ (p, o).
      generate_for_pdf double roo gen proto_sections proto_sample p s.expected_yield
        (not s.size_fixed) [])
        k) [
          | ok (d, k') ↦ ok (some d, k')
          | throw e ↦ elim (without_pdf s e) [ ok u ↦ ok (none, k) | throw f ↦ throw f ]
        ]

  unfoldable discrete_yield : Settings D → Option (RooDataSet (Values D)) → Random D
  discrete_yield s (some d) = return (of_int (pos (length d.rows)))
  discrete_yield s none =
      if s.size_fixed then return s.expected_yield else draw (λ n. poisson n s.expected_yield)

  -- The data of the PDF, if there is any, with that of the discrete variables, on fuel for
  -- MixMergeDatasets. After MergeDatasets, `delete argset_already_generated` deletes the columns of the
  -- data set that is returned.
  unfoldable pub combine :
      ℕ
      → Option (RooDataSet (Values D))
      → D
      → RooDataSet (Values D)
      → ℕ
      → Option (Result (RooDataSet (Values D) × ℕ))
  combine fuel (some d) yield discrete k =
      if ltb (length discrete.rows) (length d.rows)
      then (elim (mix_merge_datasets roo (position k) fuel d discrete) [
        | none ↦ none
        | some r ↦ some (lift r (suc k))
      ])
      else (elim (merge_datasets roo d discrete none) [
        | ok e ↦ some (throw deletes_own_columns)
        | throw e ↦ some (throw e)
      ])
  combine fuel none yield discrete k =
      if less (of_int (pos (length discrete.rows))) yield
      then some (throw terminated)
      else some (ok (discrete, k))

  -- The yield and the data of GenerateDiscreteSample.
  unfoldable pub discrete_data :
      Settings D → Option (RooDataSet (Values D)) → Random (D × RooDataSet (Values D))
  unfolding discrete_yield
  discrete_data s d = discrete_yield s d >>= λ yield.
      lift (or_throw arg_set_not_set s.observables) >>= λ obs.
      draw
        (λ n. generate_discrete_sample variables (uniform n) obs s.distributions (truncate yield))
      >>= λ r. lift r >>= λ discrete. return (yield, discrete)

  unfoldable pub add_discrete :
      ℕ
      → Settings D
      → Option (RooDataSet (Values D))
      → ℕ
      → Option (Result (RooDataSet (Values D) × ℕ))
  add_discrete fuel s d k = elim (discrete_data s d k) [
    | ok ((yield, discrete), k') ↦ combine fuel d yield discrete k'
    | throw e ↦ some (throw e)
  ]

  -- `getParameters` again, where the parameters are saved.
  unfoldable pub save_parameters :
      Settings D → Result (RooDataSet (Values D) × ℕ) → Result (RooDataSet (Values D) × ℕ)
  unfolding get_parameters
  save_parameters s (throw e) = throw e
  save_parameters s (ok r) =
      if s.saves_parameters
      then (elim (get_parameters s s.order.saving) [ ok u ↦ ok r | throw e ↦ throw e ])
      else ok r

  -- Generate, from the discrete variables on.
  unfoldable pub with_data :
      ℕ
      → Settings D
      → Result (Option (RooDataSet (Values D)) × ℕ)
      → Option (Result (RooDataSet (Values D) × ℕ))
  with_data fuel s (throw e) = some (throw e)
  with_data fuel s (ok (d, k)) =
      Option.map (save_parameters s)
        (if is_empty s.distributions then some (lift (deref d) k) else add_discrete fuel s d k)

  unfoldable pub with_parameters :
      ℕ → Settings D → Result (Unit {0} × ℕ) → Option (Result (RooDataSet (Values D) × ℕ))
  unfolding with_data
  with_parameters fuel s (throw e) = some (throw e)
  with_parameters fuel s (ok (u, k)) = with_data fuel s (pdf_data s k)

  -- Generate
  unfoldable pub generate : ℕ → Settings D → ℕ → Option (Result (RooDataSet (Values D) × ℕ))
  unfolding read_parameters_from_file with_parameters draw_constrained_parameters
  generate fuel s k = elim (read_parameters_from_file s) [
    | throw e ↦ some (throw e)
    | ok u ↦ with_parameters fuel s (draw_constrained_parameters s k)
  ]
