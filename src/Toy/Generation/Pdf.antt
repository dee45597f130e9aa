-- ===== src/Toy/Generation/Pdf.antt =====
-- PDFs as GenerateForPdf takes them apart, and what it uses of RooFit, of the random numbers and of
-- doubles: parameters. `D` stands for double.
use doo_fit.Base.{ℕ, suc, String, Bool, Option, List, ℤ, if◌then◌else◌}
use doo_fit.Toy.Factory.Datasets.{RooDataSet, Result, ok, throw, rounding_error}

mutual
  -- A RooExtendPdf with its servers 0 and 1, a RooAddPdf with its coefficients, a RooProdPdf, a
  -- RooSimultaneous with its index category, and any other PDF.
  pub data Pdf (D : Type 0) : Type 0 where
    direct : String → Pdf D
    extended : String → Server D → Server D → Pdf D
    added : String → (must_be_extended : Bool) → List D → Pdfs D → Pdf D
    product : String → Pdfs D → Pdf D
    simultaneous : String → (category : String) → Categories D → Pdf D

  pub data Server (D : Type 0) : Type 0 where
    real_var : D → Server D
    sub_pdf : Pdf D → Server D
    other_server : Server D

  pub data Pdfs (D : Type 0) : Type 0 where
    nil : Pdfs D
    cons : Pdf D → Pdfs D → Pdfs D

  -- The labels of a category, each with its PDF, or with none where `getPdf` returns null.
  pub data Categories (D : Type 0) : Type 0 where
    end : Categories D
    label : String → Pdf D → Categories D → Categories D
    no_pdf : String → Categories D → Categories D

abbrev pub name_of : {D : Type 0} → Pdf D → String
name_of (direct n) = n
name_of (extended n s t) = n
name_of (added n m cs ps) = n
name_of (product n ps) = n
name_of (simultaneous n c ls) = n

-- The operations on doubles, with the constants of the code. `iround` is that of boost where the result
-- is an int, and a number is too large where it is not.
pub record Double (D : Type 0) : Type 0 where
  pub zero_ : D
  pub half : D
  pub one : D
  pub ten : D
  pub hundred : D
  pub margin : D
  pub of_int : ℤ → D
  pub add : D → D → D
  pub sub : D → D → D
  pub mul : D → D → D
  pub div : D → D → D
  pub neg : D → D
  pub abs : D → D
  pub sqrt : D → D
  pub iround : D → ℤ
  pub too_large : D → Bool
  pub truncate : D → ℤ
  pub less : D → D → Bool
  pub equal : D → D → Bool

-- boost::math::iround
abbrev pub rounded : {D : Type 0} → Double D → D → Result ℤ
rounded double a = if double.too_large a then throw rounding_error else ok (double.iround a)

-- RooFit: the expected events, the observables of a PDF that are to be generated, what `generate`
-- returns (none if it sends SIGABRT), and a data set with the columns of a category, set to a label.
-- The random numbers: each use of the generator has a number.
pub record Generator (D Row : Type 0) : Type 0 where
  pub expected_events : Pdf D → D
  pub observables : Pdf D → List String
  pub generate :
      (use_number : ℕ) (pdf : Pdf D) (obs : List String) (size : ℕ) (extended : Bool)
      (proto : Option (RooDataSet Row))
      → Option (RooDataSet Row)
  pub add_category : (category label : String) → RooDataSet Row → RooDataSet Row
  pub poisson : ℕ → D → D
  pub integer : ℕ → ℕ → ℕ

-- A computation that counts the uses of the random number generator.
abbrev pub Random : Type 0 → Type 0
Random A = ℕ → Result (A × ℕ)

infixl 5 ◌>>=◌
abbrev pub ◌>>=◌ : {A B : Type 0} → Random A → (A → Random B) → Random B
◌>>=◌ m f n = elim (m n) [ ok (a, n') ↦ f a n' | throw e ↦ throw e ]

abbrev pub lift : {A : Type 0} → Result A → Random A
lift (ok a) n = ok (a, n)
lift (throw e) n = throw e

abbrev pub return : {A : Type 0} → A → Random A
return a n = ok (a, n)

-- One use of the generator.
abbrev pub draw : {A : Type 0} → (ℕ → A) → Random A
draw f n = ok (f n, suc n)
