-- ===== src/Fitter/EasyFitResult/Tests.antt =====
-- Two fits with the parameters mean and width.
use doo_fit.Base.{
  ◌<◌, ℕ, String, false, none, some, List, [], ◌∷◌, ℤ, pos, negsuc, ◌≡◌, refl, arith, has_key,
  insert, length, get_elem?,
}
use doo_fit.Fitter.EasyFitResult.Convert.{
  as_byte, RooRealVar, RooFitResult, EasyFitResult, Double, returned, out_of_range, Status,
  no_status, status, transfer_numbers, with_status, convert_all, convert_roo_fit_result, create,
  fill, copy_status, insert_pars,
}
use doo_fit.Fitter.EasyFitResult.Names.{IsSameFrame, convert_all-IsSameFrame}
use doo_fit.Fitter.EasyFitResult.Transfer.{IsTransferred, convert-IsTransferred}
use doo_fit.Fitter.EasyFitResult.Limits.{convert-long, convert-stale}
use doo_fit.Fitter.EasyFitResult.Creation.{IsCreated, create-IsCreated}

abbrev double : Double ℕ
double = record { infinity = 999; quiet_nan = 998 }

abbrev variable : String → ℕ → RooRealVar ℕ
variable name val = record {
  name = name;
  title = name;
  unit = "MeV";
  val = val;
  is_constant = false;
  lower = some 0;
  upper = none;
  error = some 1;
  asym_error = none;
}

abbrev fit_of : List (String × ℤ) → ℕ → RooFitResult ℕ
fit_of history val = record {
  cov_qual = pos 3;
  min_nll = 100;
  edm = 0;
  status_history = history;
  const_pars = [];
  float_pars_final = variable "mean" val ∷ variable "width" 2 ∷ [];
  float_pars_init = variable "mean" 5 ∷ variable "width" 1 ∷ [];
}

abbrev first_fit : RooFitResult ℕ
first_fit = fit_of (("MIGRAD", pos 0) ∷ ("HESSE", pos 0) ∷ []) 7

abbrev second_fit : RooFitResult ℕ
second_fit = fit_of (("MIGRAD", negsuc 0) ∷ []) 8

abbrev stored : EasyFitResult ℕ
stored = (create double first_fit).1

abbrev long_history : List (String × ℤ)
long_history =
    no_status ∷ no_status ∷ no_status ∷ no_status ∷ no_status ∷ no_status ∷ no_status ∷ no_status
    ∷ no_status ∷ no_status ∷ no_status ∷ []

create-IsCreated_example :
    (r : EasyFitResult ℕ) × (create double first_fit ≡ (returned, r)) × IsCreated double first_fit r
create-IsCreated_example = create-IsCreated double first_fit (omega arith)

convert_all-IsSameFrame_example :
    IsSameFrame stored
      (convert_all double (second_fit ∷ fit_of long_history 1 ∷ first_fit ∷ []) stored)
unfolding create convert_roo_fit_result fill copy_status has_key insert_pars insert
convert_all-IsSameFrame_example =
    convert_all-IsSameFrame double (second_fit ∷ fit_of long_history 1 ∷ first_fit ∷ []) stored refl

convert-IsTransferred_example :
    (r : EasyFitResult ℕ) × (convert_roo_fit_result double second_fit stored ≡ (returned, r))
    × IsTransferred double second_fit stored r
unfolding create convert_roo_fit_result fill copy_status has_key insert_pars insert
convert-IsTransferred_example =
    convert-IsTransferred double second_fit stored refl refl (omega arith) (omega arith) tt
      (refl, (refl, tt)) (refl, (refl, tt))

convert-long_example :
    (s : Status) × (convert_roo_fit_result double (fit_of long_history 1) stored
      ≡ (out_of_range, with_status (transfer_numbers (fit_of long_history 1) stored) s))
    × (length s.0 ≡ 10)
    × ((j : ℕ) → j < 10 → get_elem? s.0 j ≡ get_elem? long_history j)
    × (s.1 ≡ as_byte (length long_history))
unfolding create convert_roo_fit_result fill copy_status has_key insert_pars insert
convert-long_example = convert-long double (fit_of long_history 1) stored refl refl (omega arith)

convert-stale_example :
    (r : EasyFitResult ℕ) × (convert_roo_fit_result double (fit_of [] 8) stored ≡ (returned, r))
    × (status r ≡ some (no_status ∷ no_status ∷ []))
unfolding create convert_roo_fit_result fill copy_status has_key insert_pars insert
convert-stale_example =
    convert-stale double (fit_of [] 8) stored refl refl (omega arith) refl tt (refl, (refl, tt))
      (refl, (refl, tt))
