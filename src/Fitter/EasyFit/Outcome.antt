-- ===== src/Fitter/EasyFit/Outcome.antt =====
-- What Fit, GetFitResult and FitTime of EasyFit give, and what no later call changes.
use doo_fit.Base.{
  if◌then◌else◌, ℕ, ◌-◌, ◌/◌, String, Bool, true, false, some, List, [], ◌∷◌, ◌≡◌, refl, arith, ◌∙◌,
  Option,
}
use doo_fit.Fitter.EasyFit.Options.{Options, EasyFit}
use doo_fit.Fitter.EasyFit.Setters.{
  change, set_minimizer, set_minos, set_minos_pars, set_option, check_minimizer_combi_ok,
}
use doo_fit.Fitter.EasyFit.Commands.{commands, values-fill_map}
use doo_fit.Fitter.EasyFit.Lifecycle.{
  Roo, pdf_and_data_ready, fit, is_set, get_fit_result, fit_time, Call, sets, gives, gives_from,
  fits, step, run,
}
use doo_fit.Fitter.EasyFit.Invariant.{IsValid}

-- On a valid fit that is not yet prepared and has a PDF and data, Fit hands them to fitTo with the
-- commands of the options, ends finalized, and GetFitResult returns fitTo's pointer.
pub get_fit_result-fit :
    (roo : Roo) (e : EasyFit) (p d : ℕ)
    → IsValid e
    → e.prepared ≡ false
    → e.pdf ≡ some p
    → e.data_set ≡ some d
    → (get_fit_result (fit roo e) ≡ roo.fit_to p d (commands e.options))
      × ((fit roo e).finalized ≡ true)
unfolding fit get_fit_result
get_fit_result-fit roo e p d v new has_pdf has_data = ground (arith, values-fill_map e.options)

-- Such a Fit measures: FitTime is the time between the clock readings if fitTo gave a result, and
-- (0, 0) if it gave NULL.
fit_time-fit :
    (roo : Roo) (e : EasyFit) (p d : ℕ)
    → IsValid e
    → e.prepared ≡ false
    → e.pdf ≡ some p
    → e.data_set ≡ some d
    → fit_time (fit roo e) ≡ (
        if is_set (roo.fit_to p d (commands e.options))
        then ((roo.t_end - roo.t_start) / 1000000, roo.c_end - roo.c_start)
        else (0, 0))
unfolding fit fit_time
fit_time-fit roo e p d v new has_pdf has_data = ground (arith, values-fill_map e.options)

step-finalized : (c : Call) (e : EasyFit) → IsValid e → e.finalized ≡ true → step c e ≡ e
unfolding step pdf_and_data_ready
step-finalized (sets s) e v h = ground arith
step-finalized (gives p d) e v h = ground arith
step-finalized (gives_from ws name d) e v h = ground arith
step-finalized (fits roo) e v h = ground arith

-- A finalized fit never changes again: whatever is called, the object stays as it is.
pub run-finalized : (cs : List Call) (e : EasyFit) → IsValid e → e.finalized ≡ true → run cs e ≡ e
unfolding run
run-finalized [] e v h = refl
run-finalized (c ∷ cs) e v h = rw (step-finalized c e v h) (run-finalized cs e v h)

abbrev Same : EasyFit → EasyFit → Type 0
Same e f = (f.prepared ≡ true) × (f.options ≡ e.options) × (f.fc_linklist ≡ e.fc_linklist)

step-prepared : (c : Call) (e : EasyFit) → e.prepared ≡ true → Same e (step c e)
unfolding step
step-prepared (sets s) e h = ground arith
step-prepared (gives p d) e h = ground arith
step-prepared (gives_from ws name d) e h = ground arith
step-prepared (fits roo) e h = ground arith

-- Once a fit is prepared, no call changes its options or the commands for fitTo.
pub run-prepared : (cs : List Call) (e : EasyFit) → e.prepared ≡ true → Same e (run cs e)
unfolding run
run-prepared [] e h = (h, refl, refl)
run-prepared (c ∷ cs) e h =
    let (h', o, l) = step-prepared c e h in
    let (h'', o', l') = run-prepared cs (step c e) h' in (h'', o' ∙ o, l' ∙ l)

-- SetMinimizer takes every type and algorithm, also those that CheckMinimizerCombiOk rejects: they
-- reach fitTo.
set_minimizer_unchecked :
    (roo : Roo) (e : EasyFit) (p d : ℕ) (type algo : String)
    → IsValid e
    → e.prepared ≡ false
    → e.pdf ≡ some p
    → e.data_set ≡ some d
    → check_minimizer_combi_ok e type algo ≡ false
    → get_fit_result (fit roo (set_option (set_minimizer type algo) e))
      ≡ roo.fit_to p d
          (commands (record e.options { fc_minimizer_type = type; fc_minimizer_algo = algo }))
unfolding fit get_fit_result set_option
set_minimizer_unchecked roo e p d type algo v new has_pdf has_data bad = ground (
  arith,
  values-fill_map (record e.options { fc_minimizer_type = type; fc_minimizer_algo = algo }),
)

-- After SetMinosPars, SetMinos has no effect on the commands: MINOS stays on for the set, also when
-- it is switched off.
set_minos_ignored :
    (b : Bool) (s : Option ℕ) (o : Options)
    → commands (change (set_minos b) (change (set_minos_pars s) o))
      ≡ commands (change (set_minos_pars s) o)
unfolding commands change
set_minos_ignored b s o = ground arith
