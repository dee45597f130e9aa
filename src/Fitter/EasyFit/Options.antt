-- ===== src/Fitter/EasyFit/Options.antt =====
-- The state of EasyFit: fit_name_ to fc_timer_ of EasyFit.h, and the constructor of EasyFit.cpp.
use doo_fit.Base.{ℕ, ℤ, pos, String, Bool, true, false, Option, none, List, [], ◌∷◌, Dict, assign}

-- `RooCmdArg`, by the RooFit function that makes it.
pub data CmdArg : Type 0 where
  num_cpu : ℤ → ℤ → CmdArg
  extended : Bool → CmdArg
  constrained : CmdArg
  external_constraints : Option ℕ → CmdArg
  conditional_observables : Option ℕ → CmdArg
  strategy : ℤ → CmdArg
  optimize : ℤ → CmdArg
  offset : ℤ → CmdArg
  sum_w2_error : Bool → CmdArg
  minimizer : String → String → CmdArg
  initial_hesse : Bool → CmdArg
  hesse : Bool → CmdArg
  minos : Bool → CmdArg
  minos_set : Option ℕ → CmdArg
  save : Bool → CmdArg
  verbose : Bool → CmdArg
  warnings : Bool → CmdArg
  print_level : ℤ → CmdArg
  print_eval_errors : ℤ → CmdArg
  timer : Bool → CmdArg

-- The members with prefix `fc_`.
pub record Options : Type 0 where
  pub fc_num_cpu : ℤ
  pub fc_num_cpu_strategy : ℤ
  pub fc_extended : Bool
  pub fc_constrained : Bool
  pub fc_constrained_externally : Bool
  pub fc_external_constraints : Option ℕ
  pub fc_conditional_observables_set : Bool
  pub fc_conditional_observables : Option ℕ
  pub fc_strategy : ℤ
  pub fc_optimize : ℤ
  pub fc_offset : ℤ
  pub fc_sumw2err : Bool
  pub fc_minimizer_type : String
  pub fc_minimizer_algo : String
  pub fc_hesse_init : Bool
  pub fc_hesse : Bool
  pub fc_minos : Bool
  pub fc_minos_wpars : Bool
  pub fc_minos_pars : Option ℕ
  pub fc_save : Bool
  pub fc_verbose : Bool
  pub fc_warnings : Bool
  pub fc_printlevel : ℤ
  pub fc_numevalerr : ℤ
  pub fc_timer : Bool

-- Times are whole: `time_real` in milliseconds, `time_cpu` in microseconds.
pub record EasyFit : Type 0 where
  pub fit_name : String
  pub prepared : Bool
  pub fitted : Bool
  pub finalized : Bool
  pub pdf : Option ℕ
  pub data_set : Option ℕ
  pub fit_result : Option ℕ
  pub minimizer_combs : Dict (List String)
  pub fc_map : Dict CmdArg
  pub fc_linklist : List CmdArg
  pub time_cpu : ℕ
  pub time_real : ℕ
  pub options : Options
  pub open options use *

abbrev pub default_options : Options
default_options = record {
  fc_num_cpu = pos 1;
  fc_num_cpu_strategy = pos 0;
  fc_extended = false;
  fc_constrained = false;
  fc_constrained_externally = false;
  fc_external_constraints = none;
  fc_conditional_observables_set = false;
  fc_conditional_observables = none;
  fc_strategy = pos 1;
  fc_optimize = pos 1;
  fc_offset = pos 0;
  fc_sumw2err = false;
  fc_minimizer_type = "Minuit2";
  fc_minimizer_algo = "minimize";
  fc_hesse_init = false;
  fc_hesse = true;
  fc_minos = true;
  fc_minos_wpars = false;
  fc_minos_pars = none;
  fc_save = true;
  fc_verbose = false;
  fc_warnings = true;
  fc_printlevel = pos 1;
  fc_numevalerr = pos 10;
  fc_timer = true;
}

-- The allowed combinations of minimizer type and algorithm.
unfoldable pub combinations : Dict (List String)
unfolding assign
combinations = assign "GSLSimAn" ("" ∷ []) (
    assign "GSLMultiMin" ("conjugatefr" ∷ "conjugatepr" ∷ "bfgs" ∷ "bfgs2" ∷ "steepestdescent" ∷ [])
      (assign "Minuit2" ("migrad" ∷ "simplex" ∷ "minimize" ∷ "scan" ∷ []) (
        assign "Minuit" ("migrad" ∷ "simplex" ∷ "minimize" ∷ "migradimproved" ∷ [])
          (assign "OldMinuit" ("migrad" ∷ "simplex" ∷ "minimize" ∷ "migradimproved" ∷ []) []))))

unfoldable pub create : String → EasyFit
unfolding combinations
create fit_name = record {
  fit_name = fit_name;
  prepared = false;
  fitted = false;
  finalized = false;
  pdf = none;
  data_set = none;
  fit_result = none;
  minimizer_combs = combinations;
  fc_map = [];
  fc_linklist = [];
  time_cpu = 0;
  time_real = 0;
  options = default_options;
}
