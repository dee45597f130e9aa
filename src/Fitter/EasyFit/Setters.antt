-- ===== src/Fitter/EasyFit/Setters.antt =====
-- The guards and the setters of EasyFit.cpp. A setter is a change of the options behind the guard
-- `CheckSettingOptionsOk`; the data type names the setters with their arguments.
use doo_fit.Base.{
  ℕ, ℤ, pos, ltb_ℤ, String, Bool, true, false, ◌&&◌, not, Option, none, some, List, [], ◌∷◌, find,
  if◌then◌else◌, str_eq,
}
use doo_fit.Fitter.EasyFit.Options.{Options, EasyFit}

-- CheckSettingOptionsOk
unfoldable pub check_setting_options_ok : EasyFit → Bool
check_setting_options_ok e = not e.prepared

abbrev pub member : String → List String → Bool
member a [] = false
member a (x ∷ xs) = if str_eq x a then true else member a xs

-- CheckMinimizerCombiOk
unfoldable pub check_minimizer_combi_ok : EasyFit → String → String → Bool
unfolding find
check_minimizer_combi_ok e type algo = elim (find type e.minimizer_combs) [
  | none ↦ false
  | some algos ↦ member algo algos
]

-- The pointers to sets are none where they are null.
pub data Setter : Type 0 where
  set_num_cpu : ℤ → ℤ → Setter
  set_extended : Bool → Setter
  set_constrained : Bool → Setter
  set_external_constraints : Option ℕ → Setter
  set_conditional_observables : Option ℕ → Setter
  set_strategy : ℤ → Setter
  set_offset : ℤ → Setter
  set_optimize : ℤ → Setter
  set_sum_w2_error : Bool → Setter
  set_minimizer : String → String → Setter
  set_hesse_init : Bool → Setter
  set_hesse : Bool → Setter
  set_minos : Bool → Setter
  set_minos_pars : Option ℕ → Setter
  set_save : Bool → Setter
  set_verbose : Bool → Setter
  set_warnings : Bool → Setter
  set_print_level : ℤ → Setter
  set_num_eval_errors : ℤ → Setter
  set_timer : Bool → Setter

-- The body of a setter, inside the guard.
unfoldable pub change : Setter → Options → Options
change (set_num_cpu n s) o =
    if ltb_ℤ (pos 0) n then record o { fc_num_cpu = n; fc_num_cpu_strategy = s } else o
change (set_extended b) o = record o { fc_extended = b }
change (set_constrained b) o = record o { fc_constrained = b }
change (set_external_constraints p) o = record o {
  fc_constrained_externally = true;
  fc_external_constraints = p;
}
change (set_conditional_observables p) o = record o {
  fc_conditional_observables_set = true;
  fc_conditional_observables = p;
}
change (set_strategy n) o =
    if not (ltb_ℤ n (pos 0)) && ltb_ℤ n (pos 3) then record o { fc_strategy = n } else o
change (set_offset n) o = record o { fc_offset = n }
change (set_optimize n) o = record o { fc_optimize = n }
change (set_sum_w2_error b) o = record o { fc_sumw2err = b }
change (set_minimizer t a) o = record o { fc_minimizer_type = t; fc_minimizer_algo = a }
change (set_hesse_init b) o = record o { fc_hesse_init = b }
change (set_hesse b) o = record o { fc_hesse = b }
change (set_minos b) o = record o { fc_minos = b }
change (set_minos_pars p) o = record o { fc_minos = true; fc_minos_wpars = true; fc_minos_pars = p }
change (set_save b) o = record o { fc_save = b }
change (set_verbose b) o = record o { fc_verbose = b }
change (set_warnings b) o = record o { fc_warnings = b }
change (set_print_level n) o = record o { fc_printlevel = n }
change (set_num_eval_errors n) o = record o { fc_numevalerr = n }
change (set_timer b) o = record o { fc_timer = b }

unfoldable pub set_option : Setter → EasyFit → EasyFit
unfolding change check_setting_options_ok
set_option s e = if check_setting_options_ok e then record e { options = change s e.options } else e
