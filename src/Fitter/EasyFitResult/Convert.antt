-- ===== src/Fitter/EasyFitResult/Convert.antt =====
-- EasyFitResult::ConvertRooFitResult and status; EasyFitVariable. `D` stands for double. Trees are
-- left out.
use doo_fit.Base.{
  ℕ, zero, suc, ◌-◌, ◌%◌, ◌^◌, ltb, String, Bool, true, false, Option, none, some, List, [], ◌∷◌,
  get_elem?, set, length, ℤ, pos, Dict, assign, insert, has_key, if◌then◌else◌,
}

-- RooRealVar, as far as the constructor of EasyFitVariable reads it: none where it has no limit or
-- error.
pub record RooRealVar (D : Type 0) : Type 0 where
  pub name : String
  pub title : String
  pub unit : String
  pub val : D
  pub is_constant : Bool
  pub lower : Option D
  pub upper : Option D
  pub error : Option D
  pub asym_error : Option (D × D)

pub record EasyFitVariable (D : Type 0) : Type 0 where
  pub name : String
  pub title : String
  pub unit : String
  pub value : D
  pub minimum : D
  pub maximum : D
  pub has_error : Bool
  pub has_asym_error : Bool
  pub error : D
  pub error_low : D
  pub error_high : D
  pub constant : Bool

-- RooFitResult: the history of the status, and the parameters.
pub record RooFitResult (D : Type 0) : Type 0 where
  pub cov_qual : ℤ
  pub min_nll : D
  pub edm : D
  pub status_history : List (String × ℤ)
  pub const_pars : List (RooRealVar D)
  pub float_pars_final : List (RooRealVar D)
  pub float_pars_init : List (RooRealVar D)

pub record EasyFitResult (D : Type 0) : Type 0 where
  pub parameters_float_init : Dict (EasyFitVariable D)
  pub parameters_float_final : Dict (EasyFitVariable D)
  pub parameters_const : Dict (EasyFitVariable D)
  pub status_ptrs : List (String × ℤ)
  pub num_status : ℕ
  pub quality_covariance_matrix : ℤ
  pub fcn : D
  pub edm : D
  pub initialized : Bool

-- The infinity and the quiet NaN of double.
pub record Double (D : Type 0) : Type 0 where
  pub infinity : D
  pub quiet_nan : D

-- `at` throws std::out_of_range; what was written before stays.
pub data Outcome : Type 0 where
  returned out_of_range : Outcome

abbrev pub no_status : String × ℤ
no_status = ("", pos 0)

abbrev pub is_some : {A : Type 0} → Option A → Bool
is_some none = false
is_some (some x) = true

module _ {D : Type 0} where
  abbrev pub or_default : Option D → D → D
  or_default none d = d
  or_default (some x) d = x

  abbrev pub low_of : Option (D × D) → D → D
  low_of none d = d
  low_of (some (low, high)) d = low

  abbrev pub high_of : Option (D × D) → D → D
  high_of none d = d
  high_of (some (low, high)) d = high

  -- EasyFitVariable(const RooRealVar&)
  abbrev pub easy_fit_variable : Double D → RooRealVar D → EasyFitVariable D
  easy_fit_variable double v = record {
    name = v.name;
    title = v.title;
    unit = v.unit;
    value = v.val;
    minimum = or_default v.lower double.infinity;
    maximum = or_default v.upper double.infinity;
    has_error = is_some v.error;
    has_asym_error = is_some v.asym_error;
    error = or_default v.error double.quiet_nan;
    error_low = low_of v.asym_error double.quiet_nan;
    error_high = high_of v.asym_error double.quiet_nan;
    constant = v.is_constant;
  }

-- A call goes on only if the last one returned.
abbrev pub and_then : {A : Type 0} → Outcome × A → (A → Outcome × A) → Outcome × A
and_then (returned, r) f = f r
and_then (out_of_range, r) f = (out_of_range, r)

-- num_status_ is an unsigned char.
abbrev pub as_byte : ℕ → ℕ
as_byte n = n % 2 ^ 8

-- The status, and how many of its entries are in use.
abbrev pub Status : Type 0
Status = List (String × ℤ) × ℕ

-- The loop over the n entries of the history, from the i-th.
unfoldable pub copy_status : ℕ → ℕ → List (String × ℤ) → Status → Outcome × Status
copy_status n i [] (ptrs, num) = (returned, (ptrs, num))
copy_status n i (x ∷ xs) (ptrs, num) =
    let rest = copy_status n (suc i) xs (set ptrs i x, as_byte n) in
    if ltb i (length ptrs) then rest else (out_of_range, (ptrs, as_byte n))

-- The entries from i on, `count` of them, become empty.
unfoldable pub clear_status : ℕ → ℕ → List (String × ℤ) → List (String × ℤ)
clear_status zero i ptrs = ptrs
clear_status (suc count) i ptrs = clear_status count (suc i) (set ptrs i no_status)

-- status: the entries in use.
unfoldable pub take_status : ℕ → ℕ → List (String × ℤ) → Option (List (String × ℤ))
take_status zero i ptrs = some []
take_status (suc count) i ptrs = elim (get_elem? ptrs i) [
  | none ↦ none
  | some x ↦ (elim (take_status count (suc i) ptrs) [ none ↦ none | some xs ↦ some (x ∷ xs) ])
]

-- The ten entries of a new object.
abbrev pub ten_empty : List (String × ℤ)
ten_empty =
    (no_status ∷ no_status ∷ no_status ∷ no_status ∷ no_status ∷ no_status ∷ no_status ∷ no_status
      ∷ no_status ∷ no_status ∷ [])

module _ {D : Type 0} where
  -- none where `at` throws.
  abbrev pub status : EasyFitResult D → Option (List (String × ℤ))
  status r = take_status r.num_status 0 r.status_ptrs

module _ {D : Type 0} where
  abbrev pub transfer_numbers : RooFitResult D → EasyFitResult D → EasyFitResult D
  transfer_numbers f r = record r {
    quality_covariance_matrix = f.cov_qual;
    fcn = f.min_nll;
    edm = f.edm;
  }

  abbrev pub with_status : EasyFitResult D → Status → EasyFitResult D
  with_status r (ptrs, num) = record r { status_ptrs = ptrs; num_status = num }

  abbrev pub transfer_status : RooFitResult D → EasyFitResult D → Outcome × EasyFitResult D
  transfer_status f r =
      let (o, s) =
        copy_status (length f.status_history) 0 f.status_history (r.status_ptrs, r.num_status) in
      (o, with_status r s)

  abbrev pub clear_rest : RooFitResult D → EasyFitResult D → EasyFitResult D
  clear_rest f r = record r {
    status_ptrs =
        clear_status (10 - length f.status_history) (length f.status_history) r.status_ptrs;
  }

module _ {D : Type 0} (double : Double D) where
  -- The transfer of parameters into a new object: the first of a name is kept.
  unfoldable pub insert_pars :
      List (RooRealVar D) → Dict (EasyFitVariable D) → Dict (EasyFitVariable D)
  insert_pars [] m = m
  insert_pars (v ∷ vs) m = insert_pars vs (insert v.name (easy_fit_variable double v) m)

  -- The transfer into an initialized object: every name must be there.
  unfoldable pub update_pars :
      List (RooRealVar D) → Dict (EasyFitVariable D) → Outcome × Dict (EasyFitVariable D)
  update_pars [] m = (returned, m)
  update_pars (v ∷ vs) m =
      let rest = update_pars vs (assign v.name (easy_fit_variable double v) m) in
      if has_key v.name m then rest else (out_of_range, m)

  abbrev pub update_const : RooFitResult D → EasyFitResult D → Outcome × EasyFitResult D
  update_const f r =
      let (o, m) = update_pars f.const_pars r.parameters_const in
      (o, record r { parameters_const = m })

  abbrev pub update_final : RooFitResult D → EasyFitResult D → Outcome × EasyFitResult D
  update_final f r =
      let (o, m) = update_pars f.float_pars_final r.parameters_float_final in
      (o, record r { parameters_float_final = m })

  abbrev pub update_init : RooFitResult D → EasyFitResult D → Outcome × EasyFitResult D
  update_init f r =
      let (o, m) = update_pars f.float_pars_init r.parameters_float_init in
      (o, record r { parameters_float_init = m })

  abbrev pub insert_all : RooFitResult D → EasyFitResult D → EasyFitResult D
  insert_all f r = record r {
    parameters_const = insert_pars f.const_pars r.parameters_const;
    parameters_float_final = insert_pars f.float_pars_final r.parameters_float_final;
    parameters_float_init = insert_pars f.float_pars_init r.parameters_float_init;
    initialized = true;
  }

  -- The transfer into an initialized object, after its numbers.
  unfoldable pub refill : RooFitResult D → EasyFitResult D → Outcome × EasyFitResult D
  refill f r = and_then (transfer_status f r) (λ r1.
      and_then (update_const f (clear_rest f r1))
        (λ r2. and_then (update_final f r2) (update_init f)))

  -- The transfer into a new object.
  unfoldable pub fill : RooFitResult D → EasyFitResult D → Outcome × EasyFitResult D
  fill f r = and_then (transfer_status f r) (λ r1. (returned, insert_all f r1))

  unfoldable pub convert_roo_fit_result :
      RooFitResult D → EasyFitResult D → Outcome × EasyFitResult D
  convert_roo_fit_result f r =
      if r.initialized then refill f (transfer_numbers f r) else fill f (transfer_numbers f r)

  -- EasyFitResult(const RooFitResult&)
  unfoldable pub create : RooFitResult D → Outcome × EasyFitResult D
  create f = convert_roo_fit_result f (record {
    parameters_float_init = [];
    parameters_float_final = [];
    parameters_const = [];
    status_ptrs = ten_empty;
    num_status = 0;
    quality_covariance_matrix = f.cov_qual;
    fcn = f.min_nll;
    edm = f.edm;
    initialized = false;
  })

  -- A history of conversions; a caller goes on after an exception.
  unfoldable pub convert_all : List (RooFitResult D) → EasyFitResult D → EasyFitResult D
  convert_all [] r = r
  convert_all (f ∷ fs) r = convert_all fs (convert_roo_fit_result f r).1
