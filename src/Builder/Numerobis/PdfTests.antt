-- ===== src/Builder/Numerobis/PdfTests.antt =====
-- A Gaussian over elements, and one whose width is not declared.
use doo_fit.Base.{
  ℕ, ◌<◌, String, true, false, some, [], ◌∷◌, All, Dict, find, assign, insert, eq_iff, str_eq,
  Bool-cases, inl, inr, ◌⊎◌, ◌≡◌, subst, arith, has_key, if◌then◌else◌, sym,
}
use doo_fit.Builder.Numerobis.Element.{Element, dim_real, param_basic}
use doo_fit.Builder.Numerobis.PdfReadiness.{
  Pdf, gauss_pdf, declare_pdf, Registrars, names_of, check_pdf_ready,
}
use doo_fit.Builder.Numerobis.PdfBuildable.{IsBuildablePdf, PdfFlags, AreKeyed}
use doo_fit.Builder.Numerobis.PdfDecision.{AreRanked}
use doo_fit.Builder.Numerobis.PdfOutcome.{check_pdf_ready_lem}

abbrev some_elements : Dict (Element ℕ)
some_elements =
    ("mean", param_basic "mean" "mean" "mean" 5 0 10 "MeV")
    ∷ ("width", param_basic "width" "width" "width" 1 0 2 "MeV")
    ∷ ("x", dim_real "x" "x" "mass" 0 10 "MeV")
    ∷ []

abbrev some_pdfs : Dict Pdf
some_pdfs =
    declare_pdf (gauss_pdf "sig" "sig" "x" "mean" "width")
      (declare_pdf (gauss_pdf "bad" "bad" "x" "mean" "nowhere") [])

abbrev site : Registrars ℕ
site = record { elements = some_elements; pdfs = some_pdfs }

abbrev pdf_rank : String → ℕ
pdf_rank n = if str_eq n "sig" then 1 else if str_eq n "bad" then 1 else 0

site-AreKeyed : AreKeyed site
unfolding declare_pdf gauss_pdf insert assign find has_key dim_real param_basic
site-AreKeyed = (
  (λ n e f. ground (arith, eq_iff "mean" n, eq_iff "width" n, eq_iff "x" n)),
  (λ n p f. ground (arith, eq_iff "bad" n, eq_iff "sig" n)),
)

-- A rank tested along the list.
abbrev AllBelow : Dict Pdf → Type 0
AllBelow [] = Unit
AllBelow ((k, p) ∷ m) = All (λ d. pdf_rank d < pdf_rank k) (names_of p.dependants) × AllBelow m

AllBelow-found :
    (m : Dict Pdf)
    → AllBelow m
    → (n : String) (p : Pdf) → find n m ≡ some p
    → All (λ d. pdf_rank d < pdf_rank n) (names_of p.dependants)
unfolding find
AllBelow-found [] a n p f = ground arith
AllBelow-found ((k, q) ∷ m) a n p f = elim (Bool-cases (str_eq k n)) [
  | inl same ↦
      let at : q ≡ p = ground arith in
      let key : k ≡ n = (eq_iff k n).0 same in
      subst (λ n. All (λ d. pdf_rank d < pdf_rank n) (names_of p.dependants)) key
        (subst (λ z. All (λ d. pdf_rank d < pdf_rank k) (names_of z.dependants)) at a.0)
  | inr other ↦ AllBelow-found m a.1 n p ground (arith)
]

no_dependants : (n : String) (e : Element ℕ) → find n some_elements ≡ some e → e.dependants ≡ []
unfolding find dim_real param_basic
no_dependants n e f = ground arith

site-AreRanked : AreRanked (λ n. 0) pdf_rank site
unfolding declare_pdf gauss_pdf insert assign find has_key
site-AreRanked = (
  (λ n e f. subst (All (λ d. 0 < 0)) (sym (no_dependants n e f)) tt),
  AllBelow-found some_pdfs (
    (omega arith, (omega arith, (omega arith, tt))),
    ((omega arith, (omega arith, (omega arith, tt))), tt),
  ),
)

check_pdf_ready_lem_example :
    (s : Registrars ℕ) × (((check_pdf_ready 1 2 "sig" site ≡ some (true, s))
        × IsBuildablePdf site "sig")
      ⊎ ((check_pdf_ready 1 2 "sig" site ≡ some (false, s)) × (IsBuildablePdf site "sig" → ⊥)))
    × PdfFlags site s
check_pdf_ready_lem_example =
    check_pdf_ready_lem (λ n. 0) pdf_rank 1 2 "sig" site (λ m. omega arith) site-AreKeyed
      site-AreRanked (omega arith)
