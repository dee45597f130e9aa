-- ===== src/Toy/Generation/Laws.antt =====
-- What RooFit and the random number generator document of what GenerateForPdf uses, and data sets
-- with some columns and a number of rows.
use doo_fit.Base.{ℕ, ◌<◌, ◌≤◌, String, false, none, some, List, ◌++◌, length, All, ◌≡◌, refl}
use doo_fit.Toy.Factory.Datasets.{RooDataSet, RooFit, ok}
use doo_fit.Toy.Factory.Append as append
use doo_fit.Toy.Generation.Pdf.{Pdf, Generator, Random, ◌>>=◌}

-- A data set with some columns and a number of rows, all of which fit.
abbrev pub Filled :
    {Row : Type 0} → (List String → Row → Type 0) → List String → ℕ → RooDataSet Row → Type 0
Filled Fits cs n d = (d.columns ≡ cs) × (length d.rows ≡ n) × All (Fits cs) d.rows

-- RooAbsPdf::generate with a size and no proto data returns a data set of that size with the
-- observables asked for; `Integer(i + 1)` is at most i; RooDataSet::merge of disjoint data sets puts
-- the columns of the second after those of the first.
pub record Laws {D Row : Type 0} (roo : RooFit Row) (rows : append.Laws roo) (gen : Generator D Row)
    : Type 0 where
  pub generate_lem :
      (n : ℕ) (pdf : Pdf D) (obs : List String) (size : ℕ)
      → 0 < size
      → (d : RooDataSet Row) × (gen.generate n pdf obs size false none ≡ some d)
        × Filled rows.Fits obs size d
  pub integer_le : (n i : ℕ) → gen.integer n i ≤ i
  pub joined_columns_lem : (cs ds : List String) → roo.joined_columns cs ds ≡ cs ++ ds
  pub Fits-joined :
      (cs ds : List String) (r s : Row)
      → rows.Fits cs r
      → rows.Fits ds s
      → rows.Fits (cs ++ ds) (roo.joined r s)

pub >>=-ok :
    {A B : Type 0} (m : Random A) (f : A → Random B) (a : A) (k k' : ℕ)
    → m k ≡ ok (a, k')
    → (m >>= f) k ≡ f a k'
>>=-ok m f a k k' e = rw (e, ◌>>=◌) refl
