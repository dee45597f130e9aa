-- ===== src/Fitter/EasyFitResult/Creation.antt =====
-- The constructor from a RooFitResult.
use doo_fit.Base.{
  ◌≤◌, ◌==◌, String, true, Option, none, some, List, [], ◌∷◌, length, ℤ, Dict, find, insert,
  has_key, find-assign, str_eq, if◌then◌else◌, ◌≡◌, refl, ◌∙◌, arith, eq_iff,
}
use doo_fit.Fitter.EasyFitResult.Convert.{
  RooRealVar, EasyFitVariable, easy_fit_variable, RooFitResult, EasyFitResult, Double, returned,
  as_byte, copy_status, status, ten_empty, insert_pars, fill, convert_roo_fit_result, create,
}
use doo_fit.Fitter.EasyFitResult.Transfer.{take_status-Holds, copy_status-Copied}

module _ {D : Type 0} (double : Double D) where
  -- The value of a name after the insertion of a list: the first one.
  abbrev pub first : String → List (RooRealVar D) → Option (EasyFitVariable D)
  first n [] = none
  first n (v ∷ vs) = if str_eq v.name n then some (easy_fit_variable double v) else first n vs

  abbrev pub or_first :
      Option (EasyFitVariable D) → String → List (RooRealVar D) → Option (EasyFitVariable D)
  or_first (some old) n vs = some old
  or_first none n vs = first n vs

  find-insert_pars :
      (vs : List (RooRealVar D)) (m : Dict (EasyFitVariable D)) (n : String)
      → find n (insert_pars double vs m) ≡ or_first (find n m) n vs
  unfolding insert_pars insert has_key
  find-insert_pars [] m n = ground arith
  find-insert_pars (v ∷ vs) m n =
      find-insert_pars vs _ n
      ∙ ground (arith, find-assign v.name n (easy_fit_variable double v) m, eq_iff v.name n)

  pub record IsCreated (f : RooFitResult D) (r : EasyFitResult D) : Type 0 where
    pub same_status : status r ≡ some f.status_history
    pub same_numbers :
        (r.quality_covariance_matrix ≡ f.cov_qual) × (r.fcn ≡ f.min_nll) × (r.edm ≡ f.edm)
    pub const_first : (n : String) → find n r.parameters_const ≡ first n f.const_pars
    pub final_first : (n : String) → find n r.parameters_float_final ≡ first n f.float_pars_final
    pub init_first : (n : String) → find n r.parameters_float_init ≡ first n f.float_pars_init
    pub ready : r.initialized ≡ true

  abbrev created : RooFitResult D → List (String × ℤ) → EasyFitResult D
  created f ptrs = record {
    parameters_float_init = insert_pars double f.float_pars_init [];
    parameters_float_final = insert_pars double f.float_pars_final [];
    parameters_const = insert_pars double f.const_pars [];
    status_ptrs = ptrs;
    num_status = length f.status_history;
    quality_covariance_matrix = f.cov_qual;
    fcn = f.min_nll;
    edm = f.edm;
    initialized = true;
  }

  create-returned :
      (f : RooFitResult D) (ptrs : List (String × ℤ))
      → copy_status (length f.status_history) 0 f.status_history (ten_empty, 0)
        ≡ (returned, (ptrs, length f.status_history))
      → create double f ≡ (returned, created f ptrs)
  unfolding create convert_roo_fit_result fill
  create-returned f ptrs e = simp e

  -- From a RooFitResult with at most ten status entries, the constructor returns an initialized object
  -- with the same status, numbers and parameters; of parameters with equal names it keeps the first.
  pub create-IsCreated :
      (f : RooFitResult D)
      → length f.status_history ≤ 10
      → (r : EasyFitResult D) × (create double f ≡ (returned, r)) × IsCreated f r
  unfolding find
  create-IsCreated f most =
      let h = length f.status_history in
      let copied = copy_status-Copied h 0 f.status_history ten_empty 0 (omega (arith, most)) in
      let count : (if 0 == h then 0 else as_byte h) ≡ h = ground (arith, most) in
      (
        created f copied.ptrs_after,
        create-returned f copied.ptrs_after (copied.result ∙ rw count refl),
        record {
          same_status = take_status-Holds f.status_history copied.ptrs_after 0 copied.holds;
          same_numbers = (refl, refl, refl);
          const_first = find-insert_pars f.const_pars [];
          final_first = find-insert_pars f.float_pars_final [];
          init_first = find-insert_pars f.float_pars_init [];
          ready = refl;
        },
      )
