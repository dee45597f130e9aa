-- ===== src/Fitter/EasyFit/Invariant.antt =====
-- What every history of calls keeps true of an EasyFit.
use doo_fit.Base.{
  ℕ, pos, ltb_ℤ, String, Bool, true, false, ◌||◌, not, Option, none, List, [], ◌∷◌, All, ◌≡◌, arith,
}
use doo_fit.Fitter.EasyFit.Options.{Options, EasyFit, create}
use doo_fit.Fitter.EasyFit.Setters.{
  Setter, set_external_constraints, set_conditional_observables, set_minos_pars, change, set_option,
}
use doo_fit.Fitter.EasyFit.Commands.{commands, values-fill_map, prepare_fit}
use doo_fit.Fitter.EasyFit.Lifecycle.{
  Roo, is_set, pdf_and_data_ready, set_pdf_and_data_set, set_pdf_and_data_set_ws, execute_fit,
  finalize_fit, Call, sets, gives, gives_from, fits, step, run,
}

abbrev pub Implies : Bool → Bool → Type 0
Implies a b = (not a || b) ≡ true

-- The options are in their documented ranges, and a pointer that PrepareFit reads is set.
pub record IsLegal (o : Options) : Type 0 where
  pub cpus : ltb_ℤ (pos 0) o.fc_num_cpu ≡ true
  pub strategy_low : ltb_ℤ o.fc_strategy (pos 0) ≡ false
  pub strategy_high : ltb_ℤ o.fc_strategy (pos 3) ≡ true
  pub constraints : Implies o.fc_constrained_externally (is_set o.fc_external_constraints)
  pub observables : Implies o.fc_conditional_observables_set (is_set o.fc_conditional_observables)
  pub minos_pars : Implies o.fc_minos_wpars (is_set o.fc_minos_pars)

pub record IsValid (e : EasyFit) : Type 0 where
  pub legal : IsLegal e.options
  pub fitted_late : Implies e.fitted e.prepared
  pub finalized_late : Implies e.finalized e.fitted
  pub ready : Implies e.fitted (pdf_and_data_ready e)
  pub unfitted : e.fitted ≡ false → e.fit_result ≡ none
  pub unprepared : e.prepared ≡ false → (e.fc_map ≡ []) × (e.fc_linklist ≡ [])
  pub list : e.prepared ≡ true → e.fc_linklist ≡ commands e.options

create-IsValid : (name : String) → IsValid (create name)
unfolding create pdf_and_data_ready
create-IsValid name = ground arith

-- A setter is given a null pointer, which PrepareFit would dereference.
abbrev pub is_null : Setter → Bool
is_null (set_external_constraints p) = not (is_set p)
is_null (set_conditional_observables p) = not (is_set p)
is_null (set_minos_pars p) = not (is_set p)
is_null _ = false

abbrev pub gives_null : Call → Bool
gives_null (sets s) = is_null s
gives_null _ = false

change-IsLegal : (s : Setter) (o : Options) → is_null s ≡ false → IsLegal o → IsLegal (change s o)
unfolding change
change-IsLegal s o p h = ground arith

set_option-IsValid :
    (s : Setter) (e : EasyFit) → is_null s ≡ false → IsValid e → IsValid (set_option s e)
unfolding set_option pdf_and_data_ready
set_option-IsValid s e p v = ground (arith, change-IsLegal s e.options)

prepare_fit-IsValid : (e : EasyFit) → IsValid e → IsValid (prepare_fit e)
unfolding prepare_fit pdf_and_data_ready
prepare_fit-IsValid e v = ground (arith, values-fill_map e.options)

gives-IsValid : (p d : Option ℕ) (e : EasyFit) → IsValid e → IsValid (set_pdf_and_data_set p d e)
unfolding set_pdf_and_data_set
gives-IsValid p d e v = ground arith

gives_from-IsValid :
    (ws : String → Option ℕ) (name : String) (d : Option ℕ) (e : EasyFit)
    → IsValid e
    → IsValid (set_pdf_and_data_set_ws ws name d e)
unfolding set_pdf_and_data_set_ws pdf_and_data_ready
gives_from-IsValid ws name d e v = ground arith

execute_fit-IsValid : (roo : Roo) (e : EasyFit) → IsValid e → IsValid (execute_fit roo e)
unfolding execute_fit
execute_fit-IsValid roo e v = ground arith

finalize_fit-IsValid : (e : EasyFit) → IsValid e → IsValid (finalize_fit e)
unfolding finalize_fit pdf_and_data_ready
finalize_fit-IsValid e v = ground arith

pub step-IsValid : (c : Call) (e : EasyFit) → gives_null c ≡ false → IsValid e → IsValid (step c e)
unfolding step
step-IsValid (sets s) e n v = set_option-IsValid s e n v
step-IsValid (gives p d) e n v = gives-IsValid p d e v
step-IsValid (gives_from ws name d) e n v = gives_from-IsValid ws name d e v
step-IsValid (fits roo) e n v =
    finalize_fit-IsValid _ (execute_fit-IsValid roo _ (prepare_fit-IsValid e v))

pub run-IsValid :
    (cs : List Call) (e : EasyFit)
    → All (λ c. gives_null c ≡ false) cs
    → IsValid e
    → IsValid (run cs e)
unfolding run
run-IsValid [] e n v = v
run-IsValid (c ∷ cs) e (n, ns) v = run-IsValid cs (step c e) ns (step-IsValid c e n v)

-- After any public calls on a new EasyFit in which no setter is given a null pointer to a set: the
-- options are in their ranges and the pointers that the commands read are set; finalized implies
-- fitted, fitted implies prepared and that a PDF and data were there; there is no result before the
-- fit; and once prepared, the command list for fitTo is exactly what the options ask for.
pub run-create-IsValid :
    (name : String) (cs : List Call)
    → All (λ c. gives_null c ≡ false) cs
    → IsValid (run cs (create name))
run-create-IsValid name cs no_null = run-IsValid cs (create name) no_null (create-IsValid name)
