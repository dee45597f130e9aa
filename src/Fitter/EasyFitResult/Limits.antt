-- ===== src/Fitter/EasyFitResult/Limits.antt =====
-- Conversions with no status entry, and with more than ten.
use doo_fit.Base.{
  ℕ, zero, suc, ◌+◌, ◌≤◌, ◌<◌, ltb, String, true, some, List, [], ◌∷◌, length, set, get_elem?, ℤ,
  Dict, Bool-cases, inl, inr, ◌≡◌, refl, ◌∙◌, subst, arith,
}
use doo_fit.Fitter.EasyFitResult.Convert.{
  RooFitResult, EasyFitResult, Double, returned, out_of_range, Status, as_byte, copy_status,
  clear_status, no_status, take_status, status, EasyFitVariable, update_pars, transfer_numbers,
  with_status, refill, convert_roo_fit_result,
}
use doo_fit.Fitter.EasyFitResult.Names.{length-set, convert-eq-refill}
use doo_fit.Fitter.EasyFitResult.Transfer.{
  Holds, get_elem?-set_same, get_elem?-set_other, get_elem?-clear_status, take_status-Holds, Known,
  update_pars-Known,
}

abbrev pub empty_entries : ℕ → List (String × ℤ)
empty_entries zero = []
empty_entries (suc n) = no_status ∷ empty_entries n

length-empty_entries : (n : ℕ) → length (empty_entries n) ≡ n
length-empty_entries zero = refl
length-empty_entries (suc n) = omega (arith, length-empty_entries n)

Holds-empty_entries :
    (n c i : ℕ) (ptrs : List (String × ℤ))
    → n ≤ c
    → i + c ≤ length ptrs
    → Holds (clear_status c i ptrs) i (empty_entries n)
unfolding clear_status
Holds-empty_entries zero c i ptrs h k = tt
Holds-empty_entries (suc n) zero i ptrs h k = absurd omega (arith, h)
Holds-empty_entries (suc n) (suc c) i ptrs h k = (
  get_elem?-clear_status c (suc i) i _ (omega arith)
      ∙ get_elem?-set_same ptrs i no_status (omega (arith, k)),
  Holds-empty_entries n c (suc i) _ (omega (arith, h))
      (omega (arith, k, length-set ptrs i no_status)),
)

-- The pointers are as many as before, those from number `i` on point to the entries `xs`, and the
-- others are as before; the number of entries is written.
abbrev Overrun : ℕ → ℕ → List (String × ℤ) → List (String × ℤ) → Status → Type 0
Overrun n i xs ptrs s =
    (length s.0 ≡ length ptrs)
    × ((j : ℕ) → j < i → get_elem? s.0 j ≡ get_elem? ptrs j)
    × ((j : ℕ) → i + j < length ptrs → get_elem? s.0 (i + j) ≡ get_elem? xs j)
    × (s.1 ≡ as_byte n)

written :
    (x : String × ℤ) (xs ptrs s : List (String × ℤ)) (i : ℕ)
    → i < length ptrs
    → ((j : ℕ) → j < suc i → get_elem? s j ≡ get_elem? (set ptrs i x) j)
    → ((j : ℕ) → suc i + j < length (set ptrs i x) → get_elem? s (suc i + j) ≡ get_elem? xs j)
    → (j : ℕ) → i + j < length ptrs
    → get_elem? s (i + j) ≡ get_elem? (x ∷ xs) j
written x xs ptrs s i small before here zero h =
    subst (λ m. get_elem? s m ≡ some x) (omega arith)
      (before i (omega arith) ∙ get_elem?-set_same ptrs i x small)
written x xs ptrs s i small before here (suc j) h =
    subst (λ m. get_elem? s m ≡ get_elem? xs j) (omega arith)
      (here j (omega (arith, h, length-set ptrs i x)))

copy_status-long :
    (n i : ℕ) (xs ptrs : List (String × ℤ)) (num : ℕ)
    → i ≤ length ptrs
    → length ptrs < i + length xs
    → (s : Status) × (copy_status n i xs (ptrs, num) ≡ (out_of_range, s)) × Overrun n i xs ptrs s
unfolding copy_status
copy_status-long n i [] ptrs num h k = absurd omega (arith, h, k)
copy_status-long n i (x ∷ xs) ptrs num h k = elim (Bool-cases (ltb i (length ptrs))) [
  | inl t ↦
      let (s, e, (l, before, here, b)) =
        copy_status-long n (suc i) xs (set ptrs i x) (as_byte n) ground (arith, length-set ptrs i x)
          (omega (arith, k, length-set ptrs i x)) in
      (
        s,
        rw t e,
        (
          l ∙ length-set ptrs i x,
          λ j small. before j (omega arith) ∙ get_elem?-set_other ptrs i j x (omega arith),
          written x xs ptrs s.0 i (ground arith) before here,
          b,
        ),
      )
  | inr t ↦ (
    (ptrs, as_byte n),
    rw t refl,
    (refl, (λ j small. refl), (λ j small. absurd (ground arith)), refl),
  )
]

module _ {D : Type 0} (double : Double D) where
  refill-long :
      (f : RooFitResult D) (r : EasyFitResult D) (s : Status)
      → copy_status (length f.status_history) 0 f.status_history (r.status_ptrs, r.num_status)
        ≡ (out_of_range, s)
      → refill double f (transfer_numbers f r)
        ≡ (out_of_range, with_status (transfer_numbers f r) s)
  unfolding refill
  refill-long f r s e = simp e

  -- If an initialized EasyFitResult with ten status entries gets a RooFitResult with more than ten,
  -- ConvertRooFitResult throws std::out_of_range: the fit's numbers are the new ones, the ten status
  -- entries are the first ten of the RooFitResult, the number of entries is that of all of them as a
  -- byte, and the parameters have not changed.
  pub convert-long :
      (f : RooFitResult D) (r : EasyFitResult D)
      → r.initialized ≡ true
      → length r.status_ptrs ≡ 10
      → 10 < length f.status_history
      → (s : Status) × (convert_roo_fit_result double f r
          ≡ (out_of_range, with_status (transfer_numbers f r) s))
        × (length s.0 ≡ 10)
        × ((j : ℕ) → j < 10 → get_elem? s.0 j ≡ get_elem? f.status_history j)
        × (s.1 ≡ as_byte (length f.status_history))
  convert-long f r i ten long =
      let (s, e, (l, before, here, b)) =
        copy_status-long (length f.status_history) 0 f.status_history r.status_ptrs r.num_status
          (omega arith) (omega (arith, ten, long)) in
      (
        s,
        convert-eq-refill double f r i ∙ refill-long f r s e,
        l ∙ ten,
        λ j small.
            subst (λ m. get_elem? s.0 m ≡ get_elem? f.status_history j) (omega arith)
              (here j (omega (arith, ten))),
        b,
      )

  refill-stale :
      (f : RooFitResult D) (r : EasyFitResult D) (mc mf mi : Dict (EasyFitVariable D))
      → f.status_history ≡ []
      → update_pars double f.const_pars r.parameters_const ≡ (returned, mc)
      → update_pars double f.float_pars_final r.parameters_float_final ≡ (returned, mf)
      → update_pars double f.float_pars_init r.parameters_float_init ≡ (returned, mi)
      → refill double f (transfer_numbers f r) ≡ (
        returned,
        record {
          parameters_float_init = mi;
          parameters_float_final = mf;
          parameters_const = mc;
          status_ptrs = clear_status 10 0 r.status_ptrs;
          num_status = r.num_status;
          quality_covariance_matrix = f.cov_qual;
          fcn = f.min_nll;
          edm = f.edm;
          initialized = r.initialized;
        },
      )
  unfolding refill copy_status
  refill-stale f r mc mf mi none_ ec ef ei = simp (none_, ec, ef, ei)

  -- If an initialized EasyFitResult with ten status entries, at most ten in use, knows all parameters
  -- of a RooFitResult without status entries, ConvertRooFitResult returns and status has as many entries
  -- as before, all of them empty.
  pub convert-stale :
      (f : RooFitResult D) (r : EasyFitResult D)
      → r.initialized ≡ true
      → length r.status_ptrs ≡ 10
      → r.num_status ≤ 10
      → f.status_history ≡ []
      → Known double f.const_pars r.parameters_const
      → Known double f.float_pars_final r.parameters_float_final
      → Known double f.float_pars_init r.parameters_float_init
      → (r' : EasyFitResult D) × (convert_roo_fit_result double f r ≡ (returned, r'))
        × (status r' ≡ some (empty_entries r.num_status))
  convert-stale f r i ten few none_ kc kf ki =
      let (mc, ec, lc) = update_pars-Known double f.const_pars r.parameters_const kc in
      let (mf, ef, lf) = update_pars-Known double f.float_pars_final r.parameters_float_final kf in
      let (mi, ei, li) = update_pars-Known double f.float_pars_init r.parameters_float_init ki in
      let r' : EasyFitResult D = record {
        parameters_float_init = mi;
        parameters_float_final = mf;
        parameters_const = mc;
        status_ptrs = clear_status 10 0 r.status_ptrs;
        num_status = r.num_status;
        quality_covariance_matrix = f.cov_qual;
        fcn = f.min_nll;
        edm = f.edm;
        initialized = r.initialized;
      } in
      (
        r',
        convert-eq-refill double f r i ∙ refill-stale f r mc mf mi none_ ec ef ei,
        subst (λ n. take_status n 0 r'.status_ptrs ≡ some (empty_entries r.num_status))
            (length-empty_entries r.num_status)
            (take_status-Holds (empty_entries r.num_status) r'.status_ptrs 0
              (Holds-empty_entries r.num_status 10 0 r.status_ptrs few (omega (arith, ten)))),
      )
