-- ===== src/Builder/Numerobis/PdfBuildable.antt =====
-- What CheckReady of the registrar of PDFs decides, and how the flags change.
use doo_fit.Base.{String, true, some, List, [], ◌∷◌, find, ◌⊎◌, inl, inr, ◌≡◌, refl, arith}
use doo_fit.Builder.Numerobis.Buildable.{
  IsBuildable, Flags, Flags-refl, Flags-trans, Supplied-back, Supplied-forth, IsKeyed,
  Flags-IsKeyed,
}
use doo_fit.Builder.Numerobis.PdfReadiness.{Pdf, Registrars, names_of}

module _ {R : Type 0} where
  -- Each name of the list is a buildable element, or a PDF that is ready or has only such names as
  -- dependants.
  pub data PdfSupplied (s : Registrars R) : List String → Type 0 where
    done : PdfSupplied s []
    by_element :
        (n : String) (ns : List String)
        → IsBuildable s.elements n
        → PdfSupplied s ns
        → PdfSupplied s (n ∷ ns)
    flagged :
        (n : String) (ns : List String) (p : Pdf)
        → find n s.pdfs ≡ some p
        → p.ready ≡ true
        → PdfSupplied s ns
        → PdfSupplied s (n ∷ ns)
    supplied :
        (n : String) (ns : List String) (p : Pdf)
        → find n s.pdfs ≡ some p
        → PdfSupplied s (names_of p.dependants)
        → PdfSupplied s ns
        → PdfSupplied s (n ∷ ns)

  -- A PDF that is ready or has only supplied names as dependants.
  pub data IsBuildablePdf (s : Registrars R) (n : String) : Type 0 where
    is_flagged : (p : Pdf) → find n s.pdfs ≡ some p → p.ready ≡ true → IsBuildablePdf s n
    is_supplied :
        (p : Pdf)
        → find n s.pdfs ≡ some p
        → PdfSupplied s (names_of p.dependants)
        → IsBuildablePdf s n

  pub PdfSupplied-pdf :
      (s : Registrars R) (n : String) (ns : List String)
      → IsBuildablePdf s n
      → PdfSupplied s ns
      → PdfSupplied s (n ∷ ns)
  PdfSupplied-pdf s n ns (is_flagged p f r) t = flagged n ns p f r t
  PdfSupplied-pdf s n ns (is_supplied p f d) t = supplied n ns p f d t

  pub PdfSupplied-head :
      (s : Registrars R) (n : String) (ns : List String)
      → PdfSupplied s (n ∷ ns)
      → (IsBuildable s.elements n ⊎ IsBuildablePdf s n) × PdfSupplied s ns
  PdfSupplied-head s n ns (by_element _ _ b t) = (inl b, t)
  PdfSupplied-head s n ns (flagged _ _ p f r t) = (inr (is_flagged p f r), t)
  PdfSupplied-head s n ns (supplied _ _ p f d t) = (inr (is_supplied p f d), t)

  pub PdfSupplied-cons :
      (s : Registrars R) (n : String) (ns : List String)
      → PdfSupplied s (n ∷ [])
      → PdfSupplied s ns
      → PdfSupplied s (n ∷ ns)
  PdfSupplied-cons s n ns (by_element _ _ b done) t = by_element n ns b t
  PdfSupplied-cons s n ns (flagged _ _ p f r done) t = flagged n ns p f r t
  PdfSupplied-cons s n ns (supplied _ _ p f d done) t = supplied n ns p f d t

  pub PdfSupplied-split :
      (s : Registrars R) (n : String) (ns : List String)
      → PdfSupplied s (n ∷ ns)
      → PdfSupplied s (n ∷ []) × PdfSupplied s ns
  PdfSupplied-split s n ns (by_element _ _ b t) = (by_element n [] b done, t)
  PdfSupplied-split s n ns (flagged _ _ p f r t) = (flagged n [] p f r done, t)
  PdfSupplied-split s n ns (supplied _ _ p f d t) = (supplied n [] p f d done, t)

  -- Flags go up only where the name is buildable, and nothing else changes.
  pub record PdfFlags (s s' : Registrars R) : Type 0 where
    pub of_elements : Flags s.elements s'.elements
    pub of_pdfs :
        (n : String)
        → (find n s'.pdfs ≡ find n s.pdfs)
          ⊎ ((p : Pdf) × (find n s.pdfs ≡ some p)
              × (find n s'.pdfs ≡ some (record p { ready = true }))
              × IsBuildablePdf s n)

  pub PdfFlags-refl : (s : Registrars R) → PdfFlags s s
  PdfFlags-refl s = record { of_elements = Flags-refl s.elements; of_pdfs = λ n. inl refl }

  pub PdfSupplied-back :
      (s s' : Registrars R) (ns : List String)
      → PdfFlags s s'
      → PdfSupplied s' ns
      → PdfSupplied s ns
  PdfSupplied-back s s' [] g done = done
  PdfSupplied-back s s' (n ∷ ns) g (by_element _ _ b t) =
      by_element n ns (Supplied-back s.elements s'.elements (n ∷ []) g.of_elements b)
        (PdfSupplied-back s s' ns g t)
  PdfSupplied-back s s' (n ∷ ns) g (flagged _ _ p f r t) = elim (g.of_pdfs n) [
    | inl same ↦ flagged n ns p (cc) r (PdfSupplied-back s s' ns g t)
    | inr (p0, f0, f1, b) ↦ PdfSupplied-pdf s n ns b (PdfSupplied-back s s' ns g t)
  ]
  PdfSupplied-back s s' (n ∷ ns) g (supplied _ _ p f d t) = elim (g.of_pdfs n) [
    | inl same ↦
        supplied n ns p (cc) (PdfSupplied-back s s' (names_of p.dependants) g d)
          (PdfSupplied-back s s' ns g t)
    | inr (p0, f0, f1, b) ↦ PdfSupplied-pdf s n ns b (PdfSupplied-back s s' ns g t)
  ]

  pub PdfSupplied-forth :
      (s s' : Registrars R) (ns : List String)
      → PdfFlags s s'
      → PdfSupplied s ns
      → PdfSupplied s' ns
  PdfSupplied-forth s s' [] g done = done
  PdfSupplied-forth s s' (n ∷ ns) g (by_element _ _ b t) =
      by_element n ns (Supplied-forth s.elements s'.elements (n ∷ []) g.of_elements b)
        (PdfSupplied-forth s s' ns g t)
  PdfSupplied-forth s s' (n ∷ ns) g (flagged _ _ p f r t) = elim (g.of_pdfs n) [
    | inl same ↦ flagged n ns p (cc) r (PdfSupplied-forth s s' ns g t)
    | inr (p0, f0, f1, b) ↦
        flagged n ns (record p0 { ready = true }) f1 refl (PdfSupplied-forth s s' ns g t)
  ]
  PdfSupplied-forth s s' (n ∷ ns) g (supplied _ _ p f d t) = elim (g.of_pdfs n) [
    | inl same ↦
        supplied n ns p (cc) (PdfSupplied-forth s s' (names_of p.dependants) g d)
          (PdfSupplied-forth s s' ns g t)
    | inr (p0, f0, f1, b) ↦
        flagged n ns (record p0 { ready = true }) f1 refl (PdfSupplied-forth s s' ns g t)
  ]

  pub IsBuildablePdf-back :
      (s s' : Registrars R) (n : String) → PdfFlags s s' → IsBuildablePdf s' n → IsBuildablePdf s n
  IsBuildablePdf-back s s' n g (is_flagged p f r) = elim (g.of_pdfs n) [
    | inl same ↦ is_flagged p (cc) r
    | inr (p0, f0, f1, b) ↦ b
  ]
  IsBuildablePdf-back s s' n g (is_supplied p f d) = elim (g.of_pdfs n) [
    | inl same ↦ is_supplied p (cc) (PdfSupplied-back s s' (names_of p.dependants) g d)
    | inr (p0, f0, f1, b) ↦ b
  ]

  pub IsBuildablePdf-forth :
      (s s' : Registrars R) (n : String) → PdfFlags s s' → IsBuildablePdf s n → IsBuildablePdf s' n
  IsBuildablePdf-forth s s' n g (is_flagged p f r) = elim (g.of_pdfs n) [
    | inl same ↦ is_flagged p (cc) r
    | inr (p0, f0, f1, b) ↦ is_flagged (record p0 { ready = true }) f1 refl
  ]
  IsBuildablePdf-forth s s' n g (is_supplied p f d) = elim (g.of_pdfs n) [
    | inl same ↦ is_supplied p (cc) (PdfSupplied-forth s s' (names_of p.dependants) g d)
    | inr (p0, f0, f1, b) ↦ is_flagged (record p0 { ready = true }) f1 refl
  ]

  pub PdfFlags-trans : (s t u : Registrars R) → PdfFlags s t → PdfFlags t u → PdfFlags s u
  PdfFlags-trans s t u g h = record {
    of_elements = Flags-trans s.elements t.elements u.elements g.of_elements h.of_elements;
    of_pdfs = λ n. elim (g.of_pdfs n) [
      | inl same ↦ elim (h.of_pdfs n) [
        | inl same' ↦ inl cc
        | inr (p, f0, f1, b) ↦ inr (p, cc, f1, IsBuildablePdf-back s t n g b)
      ]
      | inr (p, f0, f1, b) ↦ elim (h.of_pdfs n) [
        | inl same' ↦ inr (p, f0, cc, b)
        | inr (p', g0, g1, c) ↦ inr (p, f0, ground arith, b)
      ]
    ];
  }

  -- The keys of both registrars are names.
  abbrev pub AreKeyed : Registrars R → Type 0
  AreKeyed s = IsKeyed s.elements × ((n : String) (p : Pdf) → find n s.pdfs ≡ some p → p.id_abs ≡ n)

  pub PdfFlags-AreKeyed : (s s' : Registrars R) → PdfFlags s s' → AreKeyed s → AreKeyed s'
  PdfFlags-AreKeyed s s' g k = (
    Flags-IsKeyed s.elements s'.elements g.of_elements k.0,
    λ n p f. elim (g.of_pdfs n) [
      | inl same ↦ k.1 n p cc
      | inr (p0, f0, f1, b) ↦ ground (arith, k.1 n p0 f0)
    ],
  )
