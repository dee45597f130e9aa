-- ===== src/Toy/Generation/Plain.antt =====
-- PDFs that are made of directly generated ones by products alone, with the columns that their data
-- has. `observables` are those of RooFit.
use doo_fit.Base.{String, List, [], ◌++◌, All, ◌≡◌}
use doo_fit.Toy.Factory.Append.{Has}
use doo_fit.Toy.Generation.Pdf.{
  Pdf, direct, extended, added, product, simultaneous, Pdfs, nil, cons,
}

module _ {D : Type 0} (observables : Pdf D → List String) where
  unfoldable mutual
    pub columns_of : Pdf D → List String
    columns_of (direct n) = observables (direct n)
    columns_of (product n ps) = columns_of_all ps
    columns_of (extended n s t) = []
    columns_of (added n m cs ps) = []
    columns_of (simultaneous n c ls) = []

    pub columns_of_all : Pdfs D → List String
    columns_of_all nil = []
    columns_of_all (cons p ps) = columns_of p ++ columns_of_all ps

  unfoldable mutual
    unfolding columns_of

    -- No product is empty, and no factor has a column of those before it.
    pub IsPlain : Pdf D → Type 0
    IsPlain (direct n) = Unit
    IsPlain (product n nil) = ⊥
    IsPlain (product n (cons p ps)) = IsPlain p × ArePlain (columns_of p) ps
    IsPlain (extended n s t) = ⊥
    IsPlain (added n m cs ps) = ⊥
    IsPlain (simultaneous n c ls) = ⊥

    pub ArePlain : List String → Pdfs D → Type 0
    ArePlain cs nil = Unit
    ArePlain cs (cons p ps) =
        IsPlain p × All (λ c. ¬ Has cs c) (columns_of p) × ArePlain (cs ++ columns_of p) ps

  -- Parts that are plain and have the same columns.
  abbrev pub AllPlain : List String → Pdfs D → Type 0
  AllPlain cs nil = Unit
  AllPlain cs (cons p ps) = IsPlain p × (columns_of p ≡ cs) × AllPlain cs ps
