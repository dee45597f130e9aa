-- ===== src/Toy/Study/Pulls.antt =====
-- The values that BuildEvaluationArgSet makes of a result: pulls, residuals and errors of every
-- parameter. `D` stands for double; its operations and the files of generation values and fit biases
-- are parameters.
use mathlib.Core.Option
use doo_fit.Base.{
  ℕ, suc, String, ◌<>◌, str_eq, Bool, ◌&&◌, not, Option, none, some, List, [], ◌∷◌, ◌++◌, map,
  if◌then◌else◌, Dict, find, assign,
}
use doo_fit.Fitter.EasyFitResult.Convert.{RooRealVar, RooFitResult, is_some}
use doo_fit.Toy.Factory.Discrete.{add_to_set}
use doo_fit.Toy.Study.Quality.{find_par}
use doo_fit.Toy.Study.Reading.{Times, Container}

-- A set of variables, as their values by name.
abbrev pub ArgSet : Type 0 → Type 0
ArgSet D = List (String × D)

-- Doubles, with the constants of the code and RooNumber::infinity().
pub record Double (D : Type 0) : Type 0 where
  pub zero_ : D
  pub one : D
  pub two : D
  pub five : D
  pub hundred : D
  pub tiny : D
  pub infinity : D
  pub add : D → D → D
  pub sub : D → D → D
  pub mul : D → D → D
  pub div : D → D → D
  pub neg : D → D
  pub abs : D → D
  pub min : D → D → D
  pub less : D → D → Bool
  pub less_or_equal : D → D → Bool
  pub equal : D → D → Bool

-- The options that are read here, and what reading the files of generation values and of fit biases
-- makes of a list, which is the list itself where no file is named.
pub record PullConfig (D : Type 0) : Type 0 where
  pub handle_asymmetric_errors : Bool
  pub minos_parameters : List String
  pub read_genvalues : List (RooRealVar D) → List (RooRealVar D)
  pub read_fit_biases : List (RooRealVar D) → List (RooRealVar D)

-- What the loop over the parameters changes.
pub record Evaluation (D : Type 0) : Type 0 where
  pub parameters : ArgSet D
  pub parameters_at_limit : D
  pub minos_problems : D
  pub unexpected_pulls_counter : Dict ℕ

module _ {D : Type 0} (double : Double D) (config : PullConfig D) where
  open double use {
    zero_, one, two, five, hundred, tiny, infinity, add, sub, mul, div, neg, abs, min, less,
    less_or_equal, equal,
  }

  abbrev pub get_error : RooRealVar D → D
  get_error p = elim p.error [ none ↦ zero_ | some e ↦ e ]

  abbrev pub get_error_lo : RooRealVar D → D
  get_error_lo p = elim p.asym_error [ none ↦ zero_ | some e ↦ e.0 ]

  abbrev pub get_error_hi : RooRealVar D → D
  get_error_hi p = elim p.asym_error [ none ↦ zero_ | some e ↦ e.1 ]

  abbrev get_min : RooRealVar D → D
  get_min p = elim p.lower [ none ↦ neg infinity | some x ↦ x ]

  abbrev get_max : RooRealVar D → D
  get_max p = elim p.upper [ none ↦ infinity | some x ↦ x ]

  -- The asymmetric errors are looked at.
  abbrev pub is_asymmetric : RooRealVar D → Bool
  is_asymmetric p = is_some p.asym_error && config.handle_asymmetric_errors

  unfoldable pub pull_value : (par init fit_bias : RooRealVar D) → D
  pull_value par init fit_bias =
      if is_asymmetric par
      then (if less_or_equal par.val init.val
          then div (neg (sub (add fit_bias.val init.val) par.val)) (get_error_hi par)
          else div (neg (sub (sub par.val init.val) fit_bias.val)) (get_error_lo par))
      else div (neg (sub (sub init.val par.val) fit_bias.val)) (get_error par)

  unfoldable pub res_value : (par init fit_bias : RooRealVar D) → D
  res_value par init fit_bias = neg (sub (add fit_bias.val init.val) par.val)

  -- min_distance_to_limits
  unfoldable distance_to_limits : RooRealVar D → D
  distance_to_limits par =
      let width = div (sub (get_max par) (get_min par)) two in
      min (abs (div (mul (sub par.val (get_max par)) (get_error par)) width))
        (abs (div (mul (sub par.val (get_min par)) (get_error par)) width))

  unfoldable pub is_at_limit : RooRealVar D → Bool
  unfolding distance_to_limits
  is_at_limit par =
      less (distance_to_limits par) tiny && not (equal par.val zero_ && equal (get_error par) zero_)

  -- One more, of a variable with the range 0 to 100.
  unfoldable pub increase : D → D
  increase n = if less hundred (add n one) then hundred else add n one

  -- The loop over minos_parameters.
  unfoldable count_minos : RooRealVar D → List String → D → D
  unfolding increase
  count_minos par [] n = n
  count_minos par (m ∷ ms) n =
      count_minos par ms
        (if str_eq par.name m && not (is_some par.asym_error) then increase n else n)

  unfoldable pub count_pull : String → D → Dict ℕ → Dict ℕ
  unfolding find assign
  count_pull n pull counter =
      if less five (abs pull)
      then assign n (elim (find n counter) [ none ↦ 1 | some k ↦ suc k ]) counter
      else counter

  -- RooArgSet::addOwned, which takes no second variable of a name.
  unfoldable pub add_all : ArgSet D → ArgSet D → ArgSet D
  unfolding add_to_set
  add_all [] set = set
  add_all ((n, x) ∷ xs) set = add_all xs (add_to_set n x set)

  -- The variables that are added for a parameter, with the reference where there is one.
  unfoldable pub columns : (par init fit_bias : RooRealVar D) → Option (RooRealVar D) → ArgSet D
  unfolding pull_value res_value
  columns par init fit_bias reference =
      (par.name, par.val)
        ∷ (par.name <> "_pull", pull_value par init fit_bias)
        ∷ (par.name <> "_res", res_value par init fit_bias)
        ∷ (par.name <> "_init", init.val)
        ∷ (par.name <> "_err", get_error par)
        ∷ (if is_some par.asym_error
            then (par.name <> "_lerr", if is_asymmetric par then get_error_lo par else zero_)
              ∷ (par.name <> "_herr", if is_asymmetric par then get_error_hi par else zero_)
              ∷ []
            else [])
      ++ elim reference [
        | none ↦ []
        | some r ↦
            (par.name <> "_refresidual", sub (sub par.val r.val) fit_bias.val)
            ∷ (par.name <> "_reference", r.val)
            ∷ []
      ]

  -- The body of the loop over the parameters, once the initial value and the bias are found.
  unfoldable pub evaluate_parameter :
      (par init fit_bias : RooRealVar D) → Option (RooRealVar D) → Evaluation D → Evaluation D
  unfolding columns count_pull is_at_limit increase count_minos add_all
  evaluate_parameter par init fit_bias reference e = record {
    parameters = add_all (columns par init fit_bias reference) e.parameters;
    parameters_at_limit =
        if is_at_limit par then increase e.parameters_at_limit else e.parameters_at_limit;
    minos_problems = count_minos par config.minos_parameters e.minos_problems;
    unexpected_pulls_counter =
        count_pull par.name (pull_value par init fit_bias) e.unexpected_pulls_counter;
  }

  -- The loop over the parameters. none: the undefined read through a null pointer.
  unfoldable pub evaluate_parameters :
      (pars inits biases refs : List (RooRealVar D)) → Evaluation D → Option (Evaluation D)
  unfolding find_par evaluate_parameter
  evaluate_parameters [] inits biases refs e = some e
  evaluate_parameters (p ∷ ps) inits biases refs e = elim (find_par p.name inits) [
    | none ↦ none
    | some init ↦ elim (find_par p.name biases) [
      | none ↦ none
      | some bias ↦
          evaluate_parameters ps inits biases refs
            (evaluate_parameter p init bias (find_par p.name refs) e)
    ]
  ]

  abbrev no_bias : RooRealVar D → RooRealVar D
  no_bias p = record p { val = zero_; lower = none; upper = none }

  -- list_fit_biases
  unfoldable fit_biases : List (RooRealVar D) → List (RooRealVar D)
  fit_biases pars = config.read_fit_biases (map no_bias pars)

  abbrev pub new_evaluation : Dict ℕ → Evaluation D
  new_evaluation counter = record {
    parameters = [];
    parameters_at_limit = zero_;
    minos_problems = zero_;
    unexpected_pulls_counter = counter;
  }

  -- The variables that are added after the loop.
  unfoldable finish_evaluation : Times D → Evaluation D → ArgSet D × Dict ℕ
  unfolding add_all
  finish_evaluation t e = (
    add_all
        (("parameters_at_limit", e.parameters_at_limit)
          ∷ ("minos_problems", e.minos_problems)
          ∷ ("time_cpu", t.cpu1)
          ∷ ("time_real", t.real1)
          ∷ [])
        e.parameters,
    e.unexpected_pulls_counter,
  )

  abbrev final_pars : Option (RooFitResult D) → List (RooRealVar D)
  final_pars none = []
  final_pars (some r) = r.float_pars_final

  -- The part of BuildEvaluationArgSet after the choice of the result and its reference, without
  -- additional variables: the set and the counter of unexpected pulls.
  unfoldable evaluate_result :
      RooFitResult D → Option (RooFitResult D) → Container D → Dict ℕ → Option (ArgSet D × Dict ℕ)
  unfolding evaluate_parameters fit_biases finish_evaluation
  evaluate_result f reference c counter = Option.map (finish_evaluation c.times) (
      evaluate_parameters f.float_pars_final (config.read_genvalues f.float_pars_init)
        (fit_biases f.float_pars_final) (final_pars reference) (new_evaluation counter))
