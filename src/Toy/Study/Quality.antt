-- ===== src/Toy/Study/Quality.antt =====
-- FitResultOkay, FitResultNotVariedParameterSet and FitResultNoAsymmetricErrors of ToyStudyStd.cpp.
-- `D` stands for double.
use mathlib.Core.Option
use doo_fit.Base.{
  ℕ, zero, suc, ◌*◌, ◌==◌, leb, String, str_eq, Bool, true, false, ◌&&◌, not, Option, none, some,
  List, [], ◌∷◌, ℤ, pos, negsuc, ltb_ℤ, if◌then◌else◌,
}
use doo_fit.Fitter.EasyFitResult.Convert.{RooRealVar, RooFitResult, is_some}

-- The test TMath::Abs(val - init) / error < 1e-11, and what statusCodeHistory(0) is where there is
-- no status.
pub record Numbers (D : Type 0) : Type 0 where
  pub nearly_equal : D → D → Option D → Bool
  pub no_code : ℤ

-- num_nonvaried / num_nonfixed >= 0.8 as doubles: the quotient of two ints is at least the double
-- 0.8 exactly if the fraction is at least 4/5, and 0/0 is not.
unfoldable rate_is_high : ℕ × ℕ → Bool
rate_is_high (nonvaried, nonfixed) = not (nonfixed == 0) && leb (4 * nonfixed) (5 * nonvaried)

abbrev is_minus_one : ℤ → Bool
is_minus_one (negsuc zero) = true
is_minus_one _ = false

module _ {D : Type 0} where
  -- RooArgSet::find; none for a null pointer.
  unfoldable pub find_par : String → List (RooRealVar D) → Option (RooRealVar D)
  find_par n [] = none
  find_par n (p ∷ ps) = if str_eq p.name n then some p else find_par n ps

  -- The loop of FitResultNotVariedParameterSet, with num_nonvaried and num_nonfixed. none: the
  -- undefined read through a null pointer.
  unfoldable count_pars :
      Numbers D → List (RooRealVar D) → List (RooRealVar D) → ℕ → ℕ → Option (ℕ × ℕ)
  unfolding find_par
  count_pars q init [] nonvaried nonfixed = some (nonvaried, nonfixed)
  count_pars q init (p ∷ ps) nonvaried nonfixed = elim p.is_constant [
    | true ↦ count_pars q init ps nonvaried nonfixed
    | false ↦ elim (find_par p.name init) [
      | none ↦ none
      | some i ↦
          count_pars q init ps
            (if q.nearly_equal p.val i.val p.error then suc nonvaried else nonvaried) (suc nonfixed)
    ]
  ]

  unfoldable fit_result_not_varied : Numbers D → RooFitResult D → Option Bool
  unfolding count_pars rate_is_high
  fit_result_not_varied q f =
      Option.map rate_is_high (count_pars q f.float_pars_init f.float_pars_final 0 0)

  -- FitResultNoAsymmetricErrors
  unfoldable all_asymmetric : List (RooRealVar D) → Bool
  all_asymmetric [] = true
  all_asymmetric (p ∷ ps) =
      (if p.is_constant then true else is_some p.asym_error) && all_asymmetric ps

  unfoldable pub fit_result_no_asymmetric_errors : RooFitResult D → Bool
  unfolding all_asymmetric
  fit_result_no_asymmetric_errors f = not (all_asymmetric f.float_pars_final)

  -- statusCodeHistory(0)
  unfoldable first_code : Numbers D → List (String × ℤ) → ℤ
  first_code q [] = q.no_code
  first_code q ((label, code) ∷ codes) = code

  -- FitResultOkay
  unfoldable pub fit_result_okay : Numbers D → ℤ → RooFitResult D → Option Bool
  unfolding first_code fit_result_not_varied
  fit_result_okay q min_quality f =
      if ltb_ℤ f.cov_qual min_quality && not (is_minus_one f.cov_qual)
      then some false
      else if ltb_ℤ (first_code q f.status_history) (pos 0)
      then some false
      else Option.map not (fit_result_not_varied q f)
