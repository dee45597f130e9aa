-- ===== src/Builder/Numerobis/PdfOutcome.antt =====
-- The outcome of CheckReady of the registrar of PDFs.
use doo_fit.Base.{
  ℕ, zero, suc, ◌<◌, String, Bool, true, false, Option, none, some, find, assign, find-assign,
  find-assign_self, eq_iff, str_eq, Bool-cases, ◌⊎◌, inl, inr, ◌≡◌, refl, sym, ◌∙◌, subst, arith,
}
use doo_fit.Builder.Numerobis.Buildable.{Flags-refl}
use doo_fit.Builder.Numerobis.Decision.{false-eq-true}
use doo_fit.Builder.Numerobis.Termination.{All-lt}
use doo_fit.Builder.Numerobis.PdfReadiness.{
  Pdf, Registrars, names_of, check_element, finish_pdf_check, check_pdf_found, set_pdf_ready,
  check_pdf_ready,
}
use doo_fit.Builder.Numerobis.PdfBuildable.{
  PdfSupplied, IsBuildablePdf, is_flagged, is_supplied, PdfFlags, PdfFlags-refl, PdfSupplied-forth,
  PdfFlags-trans, AreKeyed,
}
use doo_fit.Builder.Numerobis.PdfDecision.{
  AreRanked, PdfDecides, undeclared_pdf, unready_pdf, and_pdf_check-some,
  check_pdf_dependants-PdfDecides,
}

abbrev ready_now : Pdf → Pdf
ready_now p = record p { ready = true }

module _ {R : Type 0} where
  abbrev raised : String → Pdf → Registrars R → Registrars R
  raised n p s = record s { pdfs = assign n (ready_now p) s.pdfs }

  raised-PdfFlags :
      (n : String) (p : Pdf) (s : Registrars R)
      → find n s.pdfs ≡ some p
      → PdfSupplied s (names_of p.dependants)
      → PdfFlags s (raised n p s)
  raised-PdfFlags n p s f d = record {
    of_elements = Flags-refl s.elements;
    of_pdfs = λ j. elim (Bool-cases (str_eq n j)) [
      | inl same ↦
          let at : n ≡ j = (eq_iff n j).0 same in
          subst
            (λ j.
              (find j (raised n p s).pdfs ≡ find j s.pdfs)
              ⊎ ((q : Pdf) × (find j s.pdfs ≡ some q)
                  × (find j (raised n p s).pdfs ≡ some (record q { ready = true }))
                  × IsBuildablePdf s j))
            at (inr (p, f, find-assign_self n (ready_now p) s.pdfs, is_supplied p f d))
      | inr other ↦ inl (rw (find-assign n j (ready_now p) s.pdfs, other) refl)
    ];
  }

  pdf_after :
      (n : String) (p : Pdf) (s s1 : Registrars R)
      → find n s.pdfs ≡ some p
      → PdfFlags s s1
      → (find n s1.pdfs ≡ some p) ⊎ ((find n s1.pdfs ≡ some (ready_now p)) × IsBuildablePdf s n)
  pdf_after n p s s1 f g = elim (g.of_pdfs n) [
    | inl same ↦ inl cc
    | inr (q, f0, f1, b) ↦ inr (ground arith, b)
  ]

  finish_true :
      (n : String) (p1 : Pdf) (s1 : Registrars R)
      → find n s1.pdfs ≡ some p1
      → finish_pdf_check n true s1 ≡ some (true, raised n p1 s1)
  unfolding set_pdf_ready
  finish_true n p1 s1 f = ground (arith, find-assign_self n (ready_now p1) s1.pdfs)

  finish_true-PdfDecides :
      (n : String) (p p1 : Pdf) (s s1 : Registrars R)
      → find n s.pdfs ≡ some p
      → find n s1.pdfs ≡ some p1
      → p1.dependants ≡ p.dependants
      → PdfFlags s s1
      → PdfSupplied s (names_of p.dependants)
      → PdfDecides (finish_pdf_check n true s1) s true (IsBuildablePdf s n)
  finish_true-PdfDecides n p p1 s s1 f f1 same g d =
      let d1 : PdfSupplied s1 (names_of p1.dependants) =
        subst (λ z. PdfSupplied s1 (names_of z)) (sym same)
          (PdfSupplied-forth s s1 (names_of p.dependants) g d) in
      record {
        answer = true;
        after = raised n p1 s1;
        result = finish_true n p1 s1 f1;
        flags = PdfFlags-trans s s1 (raised n p1 s1) g (raised-PdfFlags n p1 s1 f1 d1);
        sound = λ t. (refl, is_supplied p f d);
        complete = λ t u. refl;
      }

  finish-PdfDecides :
      (n : String) (p : Pdf) (all : Bool) (s s1 : Registrars R)
      → find n s.pdfs ≡ some p
      → p.ready ≡ false
      → PdfFlags s s1
      → (all ≡ true → PdfSupplied s (names_of p.dependants))
      → (PdfSupplied s (names_of p.dependants) → all ≡ true)
      → PdfDecides (finish_pdf_check n all s1) s true (IsBuildablePdf s n)
  finish-PdfDecides n p true s s1 f u g to from = elim (pdf_after n p s s1 f g) [
    | inl down ↦ finish_true-PdfDecides n p p s s1 f down refl g (to refl)
    | inr (up, b) ↦ finish_true-PdfDecides n p (ready_now p) s s1 f up refl g (to refl)
  ]
  finish-PdfDecides n p false s s1 f u g to from = elim (pdf_after n p s s1 f g) [
    | inl down ↦ record {
      answer = false;
      after = s1;
      result = ground arith;
      flags = g;
      sound = λ t. absurd (false-eq-true t);
      complete = λ t v. absurd (false-eq-true (from (unready_pdf s n p f u v)));
    }
    | inr (up, b) ↦ record {
      answer = true;
      after = s1;
      result = ground arith;
      flags = g;
      sound = λ t. (refl, b);
      complete = λ t v. refl;
    }
  ]

  module _ (rank pdf_rank : String → ℕ) (depth : ℕ) (deep : (n : String) → rank n < depth) where
    check_pdf_found-PdfDecides :
        (fuel : ℕ)
        → ((n : String) (s : Registrars R)
            → AreKeyed s
            → AreRanked rank pdf_rank s
            → pdf_rank n < fuel
            → PdfDecides (check_pdf_ready depth fuel n s) s true (IsBuildablePdf s n))
        → (x : Option Pdf) (n : String) (s : Registrars R) → AreKeyed s
        → AreRanked rank pdf_rank s
        → pdf_rank n < suc fuel
        → find n s.pdfs ≡ x
        → PdfDecides
            (check_pdf_found (check_element depth) (check_pdf_ready depth fuel) x n s)
            s
            true
            (IsBuildablePdf s n)
    check_pdf_found-PdfDecides fuel go none n s k r low f = record {
      answer = false;
      after = s;
      result = refl;
      flags = PdfFlags-refl s;
      sound = λ t. absurd (false-eq-true t);
      complete = λ t u. absurd (undeclared_pdf s n f u);
    }
    check_pdf_found-PdfDecides fuel go (some p) n s k r low f = elim (Bool-cases p.ready) [
      | inl up ↦ record {
        answer = true;
        after = s;
        result = rw up refl;
        flags = PdfFlags-refl s;
        sound = λ t. (refl, is_flagged p f up);
        complete = λ t u. refl;
      }
      | inr down ↦
          let all =
            check_pdf_dependants-PdfDecides rank pdf_rank depth deep fuel go (names_of p.dependants)
              true s k r
              (All-lt pdf_rank (pdf_rank n) fuel (names_of p.dependants) (r.1 n p f) low) in
          let last =
            finish-PdfDecides n p all.answer s all.after f down all.flags (λ t. (all.sound t).1)
              (all.complete refl) in
          record {
            answer = last.answer;
            after = last.after;
            result = rw down (
                and_pdf_check-some _ (finish_pdf_check n) all.answer all.after all.result
                ∙ last.result);
            flags = last.flags;
            sound = last.sound;
            complete = last.complete;
          }
    ]

    check_pdf_ready-PdfDecides :
        (fuel : ℕ) (n : String) (s : Registrars R)
        → AreKeyed s
        → AreRanked rank pdf_rank s
        → pdf_rank n < fuel
        → PdfDecides (check_pdf_ready depth fuel n s) s true (IsBuildablePdf s n)
    unfolding check_pdf_ready
    check_pdf_ready-PdfDecides zero n s k r low = absurd omega (arith, low)
    check_pdf_ready-PdfDecides (suc fuel) n s k r low =
        check_pdf_found-PdfDecides fuel (check_pdf_ready-PdfDecides fuel) (find n s.pdfs) n s k r
          low refl

  -- If the keys of both registrars are names and all dependants rank below their elements and PDFs,
  -- then CheckReady(n) of the registrar of PDFs returns: true if n is a PDF that is ready or needs only
  -- buildable elements and PDFs, and false if not. It raises flags of buildable elements and PDFs only
  -- and changes nothing else.
  pub check_pdf_ready_lem :
      (rank pdf_rank : String → ℕ) (depth fuel : ℕ) (n : String) (s : Registrars R)
      → ((m : String) → rank m < depth)
      → AreKeyed s
      → AreRanked rank pdf_rank s
      → pdf_rank n < fuel
      → (s' : Registrars R) × (((check_pdf_ready depth fuel n s ≡ some (true, s'))
            × IsBuildablePdf s n)
          ⊎ ((check_pdf_ready depth fuel n s ≡ some (false, s')) × (IsBuildablePdf s n → ⊥)))
        × PdfFlags s s'
  check_pdf_ready_lem rank pdf_rank depth fuel n s deep k r low =
      let d = check_pdf_ready-PdfDecides rank pdf_rank depth deep fuel n s k r low in
      elim (Bool-cases d.answer) [
        | inl yes_ ↦ (d.after, inl (rw yes_ at d.result, (d.sound yes_).1), d.flags)
        | inr no_ ↦ (
          d.after,
          inr (rw no_ at d.result, λ b. false-eq-true (sym no_ ∙ d.complete refl b)),
          d.flags,
        )
      ]
