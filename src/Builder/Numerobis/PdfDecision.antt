-- ===== src/Builder/Numerobis/PdfDecision.antt =====
-- CheckReady of the registrar of PDFs returns and decides whether a PDF is buildable.
use doo_fit.Base.{
  ℕ, ◌<◌, String, Bool, true, false, ◌&&◌, Option, none, some, List, [], ◌∷◌, All, Dict, find, inl,
  inr, ◌≡◌, refl, subst, arith,
}
use doo_fit.Builder.Numerobis.Element.{Element}
use doo_fit.Builder.Numerobis.Buildable.{IsBuildable, Flags}
use doo_fit.Builder.Numerobis.Decision.{false-eq-true}
use doo_fit.Builder.Numerobis.Termination.{IsRanked, Flags-IsRanked, check_ready-decided}
use doo_fit.Builder.Numerobis.PdfReadiness.{
  Pdf, Registrars, names_of, PdfCheck, and_pdf_check, check_element, check_as_pdf, or_as_pdf,
  check_pdf_dependants, check_pdf_ready,
}
use doo_fit.Builder.Numerobis.PdfBuildable.{
  PdfSupplied, done, by_element, IsBuildablePdf, is_flagged, is_supplied, PdfSupplied-pdf,
  PdfSupplied-head, PdfFlags, PdfFlags-refl, PdfSupplied-back, PdfSupplied-forth,
  IsBuildablePdf-back, IsBuildablePdf-forth, PdfFlags-trans, AreKeyed, PdfFlags-AreKeyed,
  PdfSupplied-cons, PdfSupplied-split,
}

module _ {R : Type 0} where
  -- The dependants of elements and of PDFs rank below them.
  abbrev pub AreRanked : (rank pdf_rank : String → ℕ) → Registrars R → Type 0
  AreRanked rank pdf_rank s =
      IsRanked rank s.elements
      × ((n : String) (p : Pdf)
          → find n s.pdfs ≡ some p
          → All (λ d. pdf_rank d < pdf_rank n) (names_of p.dependants))

  PdfFlags-AreRanked :
      (rank pdf_rank : String → ℕ) (s s' : Registrars R)
      → PdfFlags s s'
      → AreRanked rank pdf_rank s
      → AreRanked rank pdf_rank s'
  PdfFlags-AreRanked rank pdf_rank s s' g r = (
    Flags-IsRanked rank s.elements s'.elements g.of_elements r.0,
    λ n p f. elim (g.of_pdfs n) [
      | inl same ↦ r.1 n p cc
      | inr (p0, f0, f1, b) ↦
          let at : names_of p0.dependants ≡ names_of p.dependants = ground arith in
          subst (λ ds. All (λ d. pdf_rank d < pdf_rank n) ds) at (r.1 n p0 f0)
    ],
  )

  -- A check returns, and its answer is right: true exactly if `before` is and `P` holds.
  pub record PdfDecides (c : PdfCheck R) (s : Registrars R) (before : Bool) (P : Type 0)
      : Type 0 where
    pub answer : Bool
    pub after : Registrars R
    pub result : c ≡ some (answer, after)
    pub flags : PdfFlags s after
    pub sound : answer ≡ true → (before ≡ true) × P
    pub complete : before ≡ true → P → answer ≡ true

  pub undeclared_pdf :
      (s : Registrars R) (n : String) → find n s.pdfs ≡ none → IsBuildablePdf s n → ⊥
  undeclared_pdf s n e (is_flagged p f r) = ground arith
  undeclared_pdf s n e (is_supplied p f d) = ground arith

  pub unready_pdf :
      (s : Registrars R) (n : String) (p : Pdf)
      → find n s.pdfs ≡ some p
      → p.ready ≡ false
      → IsBuildablePdf s n
      → PdfSupplied s (names_of p.dependants)
  unready_pdf s n p f u (is_flagged q g r) = ground arith
  unready_pdf s n p f u (is_supplied q g d) =
      let at : q ≡ p = ground arith in subst (λ z. PdfSupplied s (names_of z.dependants)) at d

  elements_only :
      (s : Registrars R) (m : Dict (Element R))
      → Flags s.elements m
      → PdfFlags s (record s { elements = m })
  elements_only s m f = record { of_elements = f; of_pdfs = λ n. inl refl }

  pub and_pdf_check-some :
      (c : PdfCheck R) (f : Bool → Registrars R → PdfCheck R) (b : Bool) (s : Registrars R)
      → c ≡ some (b, s)
      → and_pdf_check c f ≡ f b s
  and_pdf_check-some c f b s h = rw h refl

  module _ (rank pdf_rank : String → ℕ) (depth : ℕ) (deep : (n : String) → rank n < depth) where
    check_element-PdfDecides :
        (n : String) (s : Registrars R)
        → AreKeyed s
        → AreRanked rank pdf_rank s
        → PdfDecides (check_element depth n s) s true (IsBuildable s.elements n)
    unfolding check_element
    check_element-PdfDecides n s k r =
        let (b, m, e, d) = check_ready-decided rank depth n s.elements k.0 r.0 (deep n) in
        record {
          answer = b;
          after = record s { elements = m };
          result = rw (e, check_element) refl;
          flags = elements_only s m d.flags;
          sound = d.sound;
          complete = d.complete;
        }

    module _ (fuel : ℕ)
        (go : (n : String) (s : Registrars R)
          → AreKeyed s
          → AreRanked rank pdf_rank s
          → pdf_rank n < fuel
          → PdfDecides (check_pdf_ready depth fuel n s) s true (IsBuildablePdf s n)) where
      check_as_pdf-PdfDecides :
          (d : String) (x : Option Pdf) (before : Bool) (s : Registrars R)
          → AreKeyed s
          → AreRanked rank pdf_rank s
          → pdf_rank d < fuel
          → find d s.pdfs ≡ x
          → PdfDecides
              (check_as_pdf (check_element depth) (check_pdf_ready depth fuel) x before s)
              s
              before
              (IsBuildablePdf s d)
      check_as_pdf-PdfDecides d none before s k r low f = record {
        answer = false;
        after = s;
        result = refl;
        flags = PdfFlags-refl s;
        sound = λ t. absurd (false-eq-true t);
        complete = λ t u. absurd (undeclared_pdf s d f u);
      }
      check_as_pdf-PdfDecides d (some p) before s k r low f =
          let one = go d s k r low in
          let named : check_pdf_ready depth fuel p.id_abs s ≡ some (one.answer, one.after) =
            rw (k.1 d p f) one.result in
          record {
            answer = before && one.answer;
            after = one.after;
            result =
                and_pdf_check-some _ (λ b s'. some (before && b, s')) one.answer one.after named;
            flags = one.flags;
            sound = λ t. (ground arith, (one.sound ground (arith)).1);
            complete = λ t u. ground (arith, one.complete refl u);
          }

      or_as_pdf-PdfDecides :
          (d : String) (b before : Bool) (s s1 : Registrars R)
          → AreKeyed s1
          → AreRanked rank pdf_rank s1
          → pdf_rank d < fuel
          → PdfFlags s s1
          → (b ≡ true → IsBuildable s.elements d)
          → (IsBuildable s.elements d → b ≡ true)
          → PdfDecides
              (or_as_pdf (check_element depth) (check_pdf_ready depth fuel) d before b s1)
              s
              before
              (PdfSupplied s (d ∷ []))
      or_as_pdf-PdfDecides d true before s s1 k r low g to from = record {
        answer = before;
        after = s1;
        result = refl;
        flags = g;
        sound = λ t. (t, by_element d [] (to refl) done);
        complete = λ t u. t;
      }
      or_as_pdf-PdfDecides d false before s s1 k r low g to from =
          let one = check_as_pdf-PdfDecides d (find d s1.pdfs) before s1 k r low refl in
          record {
            answer = one.answer;
            after = one.after;
            result = one.result;
            flags = PdfFlags-trans s s1 one.after g one.flags;
            sound = λ t.
                let (t0, b) = one.sound t in
                (t0, PdfSupplied-pdf s d [] (IsBuildablePdf-back s s1 d g b) done);
            complete = λ t u. elim (PdfSupplied-head s d [] u).0 [
              | inl b ↦ absurd (false-eq-true (from b))
              | inr b ↦ one.complete t (IsBuildablePdf-forth s s1 d g b)
            ];
          }

      pub check_pdf_dependants-PdfDecides :
          (ds : List String) (before : Bool) (s : Registrars R)
          → AreKeyed s
          → AreRanked rank pdf_rank s
          → All (λ d. pdf_rank d < fuel) ds
          → PdfDecides
              (check_pdf_dependants (check_element depth) (check_pdf_ready depth fuel) ds before s)
              s
              before
              (PdfSupplied s ds)
      unfolding check_pdf_dependants
      check_pdf_dependants-PdfDecides [] before s k r low = record {
        answer = before;
        after = s;
        result = refl;
        flags = PdfFlags-refl s;
        sound = λ t. (t, done);
        complete = λ t u. t;
      }
      check_pdf_dependants-PdfDecides (d ∷ ds) before s k r low =
          let first = check_element-PdfDecides d s k r in
          let k1 = PdfFlags-AreKeyed s first.after first.flags k in
          let r1 = PdfFlags-AreRanked rank pdf_rank s first.after first.flags r in
          let one =
            or_as_pdf-PdfDecides d first.answer before s first.after k1 r1 low.0 first.flags
              (λ t. (first.sound t).1) (first.complete refl) in
          let k2 = PdfFlags-AreKeyed s one.after one.flags k in
          let r2 = PdfFlags-AreRanked rank pdf_rank s one.after one.flags r in
          let more = check_pdf_dependants-PdfDecides ds one.answer one.after k2 r2 low.1 in
          record {
            answer = more.answer;
            after = more.after;
            result = rw (first.result, one.result) more.result;
            flags = PdfFlags-trans s one.after more.after one.flags more.flags;
            sound = λ t.
                let (t1, rest) = more.sound t in
                let (t0, head) = one.sound t1 in
                (t0, PdfSupplied-cons s d ds head (PdfSupplied-back s one.after ds one.flags rest));
            complete = λ t u.
                let (head, rest) = PdfSupplied-split s d ds u in
                more.complete (one.complete t head)
                  (PdfSupplied-forth s one.after ds one.flags rest);
          }
