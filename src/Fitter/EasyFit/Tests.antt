-- ===== src/Fitter/EasyFit/Tests.antt =====
-- Runs of EasyFit, and its theorems at concrete fits.
use doo_fit.Base.{pos, negsuc, false, true, some, List, [], ◌∷◌, ◌≡◌, refl}
use doo_fit.Fitter.EasyFit.Options.{EasyFit, create, default_options}
use doo_fit.Fitter.EasyFit.Setters.{change, set_num_cpu, set_strategy}
use doo_fit.Fitter.EasyFit.Lifecycle.{
  Roo, fit, get_fit_result, fit_time, Call, sets, gives, fits, run,
}
use doo_fit.Fitter.EasyFit.Invariant.{IsValid, run-create-IsValid}
use doo_fit.Fitter.EasyFit.Outcome.{get_fit_result-fit, run-finalized, run-prepared}

-- fitTo answers with the address 77; the fit takes 5 ms of real time and 4000 µs of CPU.
abbrev roo : Roo
roo = record {
  fit_to = λ p d l. some 77;
  c_start = 100;
  c_end = 4100;
  t_start = 0;
  t_end = 5000000;
}

abbrev calls : List Call
calls = sets (set_num_cpu (pos 4) (pos 0)) ∷ gives (some 1) (some 2) ∷ []

abbrev ready : EasyFit
ready = run calls (create "test")

abbrev done : EasyFit
done = fit roo ready

ready_facts : (ready.prepared ≡ false) × (ready.pdf ≡ some 1) × (ready.data_set ≡ some 2)
unfolding run create
ready_facts = (refl, refl, refl)

done_finalized : (done.finalized ≡ true) × (fit_time done ≡ (5, 4000))
unfolding run create fit fit_time
done_finalized = (refl, refl)

rejected_options :
    (change (set_strategy (pos 3)) default_options ≡ default_options)
    × (change (set_num_cpu (negsuc 0) (pos 0)) default_options ≡ default_options)
unfolding change
rejected_options = (refl, refl)

ready-IsValid : IsValid ready
ready-IsValid = run-create-IsValid "test" calls (refl, (refl, tt))

run-create-IsValid_example : IsValid (run (fits roo ∷ []) (create "test"))
run-create-IsValid_example = run-create-IsValid "test" (fits roo ∷ []) (refl, tt)

done-IsValid : IsValid done
unfolding run
done-IsValid =
    run-create-IsValid "test"
      (sets (set_num_cpu (pos 4) (pos 0)) ∷ gives (some 1) (some 2) ∷ fits roo ∷ [])
      (refl, (refl, (refl, tt)))

get_fit_result-fit_example : (get_fit_result done ≡ some 77) × (done.finalized ≡ true)
get_fit_result-fit_example =
    get_fit_result-fit roo ready 1 2 ready-IsValid ready_facts.0 ready_facts.1 ready_facts.2

run-finalized_example : run calls done ≡ done
run-finalized_example = run-finalized calls done done-IsValid done_finalized.0

run-prepared_example : (run calls (fit roo (create "test"))).options ≡ default_options
unfolding create fit
run-prepared_example = (run-prepared calls (fit roo (create "test")) refl).1
