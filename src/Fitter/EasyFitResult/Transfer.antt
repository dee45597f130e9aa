-- ===== src/Fitter/EasyFitResult/Transfer.antt =====
-- What a conversion of a RooFitResult transfers.
use doo_fit.Base.{
  ℕ, zero, suc, ◌+◌, ◌-◌, ◌≤◌, ◌<◌, ltb, ◌==◌, String, true, Option, some, List, [], ◌∷◌, All,
  length, get_elem?, set, ℤ, Dict, find, assign, has_key, has_key-assign, find-assign, str_eq, ◌≡◌,
  refl, ◌∙◌, arith, if◌then◌else◌,
}
use doo_fit.Fitter.EasyFitResult.Convert.{
  RooRealVar, EasyFitVariable, easy_fit_variable, RooFitResult, EasyFitResult, Double, returned,
  as_byte, copy_status, clear_status, take_status, status, update_pars, transfer_numbers, refill,
  convert_roo_fit_result,
}
use doo_fit.Fitter.EasyFitResult.Names.{length-set, convert-eq-refill}

module _ {A : Type 0} where
  pub get_elem?-set_same :
      (xs : List A) (i : ℕ) (x : A) → i < length xs → get_elem? (set xs i x) i ≡ some x
  get_elem?-set_same [] i x h = absurd omega (arith, h)
  get_elem?-set_same (y ∷ xs) zero x h = refl
  get_elem?-set_same (y ∷ xs) (suc i) x h = get_elem?-set_same xs i x (omega (arith, h))

  pub get_elem?-set_other :
      (xs : List A) (i j : ℕ) (x : A) → j < i → get_elem? (set xs i x) j ≡ get_elem? xs j
  get_elem?-set_other [] i j x h = refl
  get_elem?-set_other (y ∷ xs) zero j x h = absurd omega (arith, h)
  get_elem?-set_other (y ∷ xs) (suc i) zero x h = refl
  get_elem?-set_other (y ∷ xs) (suc i) (suc j) x h = get_elem?-set_other xs i j x (omega (arith, h))

pub get_elem?-clear_status :
    (c i j : ℕ) (ptrs : List (String × ℤ))
    → j < i
    → get_elem? (clear_status c i ptrs) j ≡ get_elem? ptrs j
unfolding clear_status
get_elem?-clear_status zero i j ptrs h = refl
get_elem?-clear_status (suc c) i j ptrs h =
    get_elem?-clear_status c (suc i) j _ (omega (arith, h)) ∙ get_elem?-set_other ptrs i j _ h

-- The entries of `ptrs` from i on begin with `xs`.
abbrev pub Holds : List (String × ℤ) → ℕ → List (String × ℤ) → Type 0
Holds ptrs i [] = Unit
Holds ptrs i (x ∷ xs) = (get_elem? ptrs i ≡ some x) × Holds ptrs (suc i) xs

pub take_status-Holds :
    (xs ptrs : List (String × ℤ)) (i : ℕ)
    → Holds ptrs i xs
    → take_status (length xs) i ptrs ≡ some xs
unfolding take_status
take_status-Holds [] ptrs i h = refl
take_status-Holds (x ∷ xs) ptrs i h = ground (arith, h.0, take_status-Holds xs ptrs (suc i) h.1)

Holds-clear_status :
    (xs ptrs : List (String × ℤ)) (c i k : ℕ)
    → i + length xs ≤ k
    → Holds ptrs i xs
    → Holds (clear_status c k ptrs) i xs
Holds-clear_status [] ptrs c i k h s = tt
Holds-clear_status (x ∷ xs) ptrs c i k h s = (
  get_elem?-clear_status c k i ptrs (omega (arith, h)) ∙ s.0,
  Holds-clear_status xs ptrs c (suc i) k (omega (arith, h)) s.1,
)

-- The loop: it returns, fills the entries, and leaves those before.
pub record Copied (n i : ℕ) (xs ptrs : List (String × ℤ)) (num : ℕ) : Type 0 where
  pub ptrs_after : List (String × ℤ)
  pub result :
      copy_status n i xs (ptrs, num)
      ≡ (returned, (ptrs_after, if 0 == length xs then num else as_byte n))
  pub holds : Holds ptrs_after i xs
  pub before : (j : ℕ) → j < i → get_elem? ptrs_after j ≡ get_elem? ptrs j

pub copy_status-Copied :
    (n i : ℕ) (xs ptrs : List (String × ℤ)) (num : ℕ)
    → i + length xs ≤ length ptrs
    → Copied n i xs ptrs num
unfolding copy_status
copy_status-Copied n i [] ptrs num h = record {
  ptrs_after = ptrs;
  result = refl;
  holds = tt;
  before = λ j k. refl;
}
copy_status-Copied n i (x ∷ xs) ptrs num h =
    let t : ltb i (length ptrs) ≡ true = ground (arith, h) in
    let rest =
      copy_status-Copied n (suc i) xs (set ptrs i x) (as_byte n)
        (omega (arith, h, length-set ptrs i x)) in
    record {
      ptrs_after = rest.ptrs_after;
      result = rw (t, rest.result) ground arith;
      holds = (
        rest.before i (omega arith) ∙ get_elem?-set_same ptrs i x (omega (arith, h)),
        rest.holds,
      );
      before = λ j k. rest.before j (omega (arith, k)) ∙ get_elem?-set_other ptrs i j x k;
    }

module _ {D : Type 0} (double : Double D) where
  -- The value of a name after the parameters of a list: the last of the name, else the old one.
  abbrev pub latest :
      String → List (RooRealVar D) → Option (EasyFitVariable D) → Option (EasyFitVariable D)
  latest n [] old = old
  latest n (v ∷ vs) old =
      latest n vs (if str_eq v.name n then some (easy_fit_variable double v) else old)

  abbrev pub Known : List (RooRealVar D) → Dict (EasyFitVariable D) → Type 0
  Known vs m = All (λ v. has_key v.name m ≡ true) vs

  Known-assign :
      (vs : List (RooRealVar D)) (k : String) (v : EasyFitVariable D) (m : Dict (EasyFitVariable D))
      → Known vs m
      → Known vs (assign k v m)
  Known-assign [] k v m h = tt
  Known-assign (w ∷ vs) k v m h =
      (ground (arith, has_key-assign k w.name v m, h.0), Known-assign vs k v m h.1)

  -- Every name is there: the update returns, with the latest values.
  pub update_pars-Known :
      (vs : List (RooRealVar D)) (m : Dict (EasyFitVariable D))
      → Known vs m
      → (m' : Dict (EasyFitVariable D)) × (update_pars double vs m ≡ (returned, m'))
        × ((n : String) → find n m' ≡ latest n vs (find n m))
  unfolding update_pars
  update_pars-Known [] m h = (m, refl, λ n. refl)
  update_pars-Known (v ∷ vs) m h =
      let m1 = assign v.name (easy_fit_variable double v) m in
      let (m', e, f) = update_pars-Known vs m1 (Known-assign vs _ _ m h.1) in
      (m', rw h.0 e, λ n. f n ∙ rw (find-assign v.name n (easy_fit_variable double v) m) refl)

  -- What the conversion of `f` into `r` leaves.
  pub record IsTransferred (f : RooFitResult D) (r r' : EasyFitResult D) : Type 0 where
    pub same_status : status r' ≡ some f.status_history
    pub same_numbers :
        (r'.quality_covariance_matrix ≡ f.cov_qual) × (r'.fcn ≡ f.min_nll) × (r'.edm ≡ f.edm)
    pub const_latest :
        (n : String)
        → find n r'.parameters_const ≡ latest n f.const_pars (find n r.parameters_const)
    pub final_latest :
        (n : String)
        → find n r'.parameters_float_final
          ≡ latest n f.float_pars_final (find n r.parameters_float_final)
    pub init_latest :
        (n : String)
        → find n r'.parameters_float_init
          ≡ latest n f.float_pars_init (find n r.parameters_float_init)

  refill-returned :
      (f : RooFitResult D) (r : EasyFitResult D) (ptrs : List (String × ℤ))
      (mc mf mi : Dict (EasyFitVariable D))
      → copy_status (length f.status_history) 0 f.status_history (r.status_ptrs, r.num_status)
        ≡ (returned, (ptrs, length f.status_history))
      → update_pars double f.const_pars r.parameters_const ≡ (returned, mc)
      → update_pars double f.float_pars_final r.parameters_float_final ≡ (returned, mf)
      → update_pars double f.float_pars_init r.parameters_float_init ≡ (returned, mi)
      → refill double f (transfer_numbers f r) ≡ (
        returned,
        record {
          parameters_float_init = mi;
          parameters_float_final = mf;
          parameters_const = mc;
          status_ptrs = clear_status (10 - length f.status_history) (length f.status_history) ptrs;
          num_status = length f.status_history;
          quality_covariance_matrix = f.cov_qual;
          fcn = f.min_nll;
          edm = f.edm;
          initialized = r.initialized;
        },
      )
  unfolding refill
  refill-returned f r ptrs mc mf mi e ec ef ei = simp (e, ec, ef, ei)

  -- If an initialized EasyFitResult with ten status entries knows all parameters of a RooFitResult with
  -- one to ten status entries, ConvertRooFitResult returns; the status, the numbers and the latest
  -- values of all parameters are those of the RooFitResult, and the parameters that it lacks stay.
  pub convert-IsTransferred :
      (f : RooFitResult D) (r : EasyFitResult D)
      → r.initialized ≡ true
      → length r.status_ptrs ≡ 10
      → 0 < length f.status_history
      → length f.status_history ≤ 10
      → Known f.const_pars r.parameters_const
      → Known f.float_pars_final r.parameters_float_final
      → Known f.float_pars_init r.parameters_float_init
      → (r' : EasyFitResult D) × (convert_roo_fit_result double f r ≡ (returned, r'))
        × IsTransferred f r r'
  convert-IsTransferred f r i ten some_ most kc kf ki =
      let h = length f.status_history in
      let copied =
        copy_status-Copied h 0 f.status_history r.status_ptrs r.num_status
          (omega (arith, ten, most)) in
      let (mc, ec, lc) = update_pars-Known f.const_pars r.parameters_const kc in
      let (mf, ef, lf) = update_pars-Known f.float_pars_final r.parameters_float_final kf in
      let (mi, ei, li) = update_pars-Known f.float_pars_init r.parameters_float_init ki in
      let count : (if 0 == h then r.num_status else as_byte h) ≡ h = ground (arith, some_, most) in
      let ptrs = clear_status (10 - h) h copied.ptrs_after in
      let r' : EasyFitResult D = record {
        parameters_float_init = mi;
        parameters_float_final = mf;
        parameters_const = mc;
        status_ptrs = ptrs;
        num_status = h;
        quality_covariance_matrix = f.cov_qual;
        fcn = f.min_nll;
        edm = f.edm;
        initialized = r.initialized;
      } in
      (
        r',
        convert-eq-refill double f r i
            ∙ refill-returned f r copied.ptrs_after mc mf mi (copied.result ∙ rw count refl) ec ef
                ei,
        record {
          same_status = take_status-Holds f.status_history ptrs 0 (
              Holds-clear_status f.status_history copied.ptrs_after (10 - h) 0 h (omega arith)
                copied.holds);
          same_numbers = (refl, refl, refl);
          const_latest = lc;
          final_latest = lf;
          init_latest = li;
        },
      )
