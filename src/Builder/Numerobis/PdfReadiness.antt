-- ===== src/Builder/Numerobis/PdfReadiness.antt =====
-- numerobis/blueprint/pdfs: Pdf, GaussPdf, and Registrar::Declare and Registrar::CheckReady. A dependant
-- of a PDF is an element or a PDF.
use doo_fit.Base.{
  ℕ, zero, suc, String, Bool, ◌&&◌, true, false, Option, none, some, List, [], ◌∷◌, Dict, find,
  assign, insert, if◌then◌else◌,
}
use doo_fit.Builder.Numerobis.Element.{Element}
use doo_fit.Builder.Numerobis.Readiness.{check_ready}

pub record Pdf : Type 0 where
  pub id_rel : String
  pub id_abs : String
  pub dependants : Dict String
  pub initialized : Bool
  pub ready : Bool
  pub onworkspace : Bool

-- GaussPdf::GaussPdf
unfoldable pub gauss_pdf : (id_rel id_abs id_abs_dimension id_abs_mean id_abs_sigma : String) → Pdf
gauss_pdf id_rel id_abs id_abs_dimension id_abs_mean id_abs_sigma = record {
  id_rel = id_rel;
  id_abs = id_abs;
  dependants =
      assign "sigma" id_abs_sigma
        (assign "mean" id_abs_mean (assign "dimension" id_abs_dimension []));
  initialized = true;
  ready = false;
  onworkspace = false;
}

-- Declare: a name that is taken keeps its PDF, and the new one is deleted.
unfoldable pub declare_pdf : Pdf → Dict Pdf → Dict Pdf
declare_pdf p ps = insert p.id_abs p ps

-- The two registrars.
pub record Registrars (R : Type 0) : Type 0 where
  pub elements : Dict (Element R)
  pub pdfs : Dict Pdf

-- none where the recursion has not ended within the fuel.
abbrev pub PdfCheck : Type 0 → Type 0
PdfCheck R = Option (Bool × Registrars R)

-- The names that a PDF depends on, in the order of the keys.
abbrev pub names_of : Dict String → List String
names_of [] = []
names_of ((k, d) ∷ ds) = d ∷ names_of ds

abbrev pub pdf_ready_in : Option Pdf → Bool
pdf_ready_in none = false
pdf_ready_in (some p) = p.ready

module _ {R : Type 0} where
  abbrev pub and_pdf_check : PdfCheck R → (Bool → Registrars R → PdfCheck R) → PdfCheck R
  and_pdf_check none f = none
  and_pdf_check (some (b, s)) f = f b s

  -- CheckReady of the registrar of elements.
  unfoldable pub check_element : ℕ → String → Registrars R → PdfCheck R
  check_element fuel n s = elim (check_ready fuel n s.elements) [
    | none ↦ none
    | some (b, m) ↦ some (b, record s { elements = m })
  ]

  abbrev pub set_pdf_ready_found : String → Option Pdf → Registrars R → Registrars R
  set_pdf_ready_found n none s = s
  set_pdf_ready_found n (some p) s = record s { pdfs = assign n (record p { ready = true }) s.pdfs }

  unfoldable pub set_pdf_ready : String → Registrars R → Registrars R
  set_pdf_ready n s = set_pdf_ready_found n (find n s.pdfs) s

  module _ (element check : String → Registrars R → PdfCheck R) where
    abbrev pub check_as_pdf : Option Pdf → Bool → Registrars R → PdfCheck R
    check_as_pdf none allready s = some (false, s)
    check_as_pdf (some p) allready s =
        and_pdf_check (check p.id_abs s) (λ b s'. some (allready && b, s'))

    -- What follows the check of a dependant as an element.
    abbrev pub or_as_pdf : String → Bool → Bool → Registrars R → PdfCheck R
    or_as_pdf d allready true s = some (allready, s)
    or_as_pdf d allready false s = check_as_pdf (find d s.pdfs) allready s

    abbrev pub check_pdf_dependant : String → Bool → Registrars R → PdfCheck R
    check_pdf_dependant d allready s = and_pdf_check (element d s) (or_as_pdf d allready)

    unfoldable pub check_pdf_dependants : List String → Bool → Registrars R → PdfCheck R
    check_pdf_dependants [] allready s = some (allready, s)
    check_pdf_dependants (d ∷ ds) allready s =
        and_pdf_check (check_pdf_dependant d allready s) (check_pdf_dependants ds)

  abbrev pub finish_pdf_check : String → Bool → Registrars R → PdfCheck R
  finish_pdf_check n allready s =
      let s' = if allready then set_pdf_ready n s else s in some (pdf_ready_in (find n s'.pdfs), s')

  abbrev pub check_pdf_found :
      (element check : String → Registrars R → PdfCheck R)
      → Option Pdf
      → String
      → Registrars R
      → PdfCheck R
  check_pdf_found element check none n s = some (false, s)
  check_pdf_found element check (some p) n s =
      if p.ready
      then some (true, s)
      else and_pdf_check (check_pdf_dependants element check (names_of p.dependants) true s)
          (finish_pdf_check n)

  -- CheckReady, with `depth` for the recursion over elements.
  unfoldable pub check_pdf_ready : (depth fuel : ℕ) → String → Registrars R → PdfCheck R
  check_pdf_ready depth zero n s = none
  check_pdf_ready depth (suc fuel) n s =
      check_pdf_found (check_element depth) (check_pdf_ready depth fuel) (find n s.pdfs) n s
