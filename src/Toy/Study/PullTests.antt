-- ===== src/Toy/Study/PullTests.antt =====
-- Runs of the evaluation of a parameter, with terms as doubles, so that a run shows the formula of a
-- value, and the theorem on pulls with integers as doubles.
use doo_fit.Base.{
  ℕ, zero, suc, Bool, true, false, ◌&&◌, not, Option, none, some, [], ◌∷◌, ◌≡◌, refl, ltb_ℤ, ℤ, pos,
  negsuc, ◌+ℤ◌, ◌-ℤ◌,
}
use doo_fit.Fitter.EasyFitResult.Convert.{RooRealVar}
use doo_fit.Toy.Study.Pulls.{
  Double, PullConfig, pull_value, res_value, evaluate_parameters, new_evaluation,
}
use doo_fit.Toy.Study.Pulled.{Exact, IsPull, pull_value_lem}

data Term : Type 0 where
  number : ℕ → Term
  fit initial bias err lo hi : Term
  plus minus times over least : Term → Term → Term
  negative absolute : Term → Term

abbrev is_five : Term → Bool
is_five (number (suc (suc (suc (suc (suc zero)))))) = true
is_five _ = false

-- The fit is at most the initial value if `low` holds, and every pull is
-- unexpected.
abbrev terms : Bool → Double Term
terms low = record {
  zero_ = number 0;
  one = number 1;
  two = number 2;
  five = number 5;
  hundred = number 100;
  tiny = number 0;
  infinity = number 1000;
  add = plus;
  sub = minus;
  mul = times;
  div = over;
  neg = negative;
  abs = absolute;
  min = least;
  less = λ a b. is_five a;
  less_or_equal = λ a b. low;
  equal = λ a b. false;
}

abbrev config : Bool → PullConfig Term
config asymmetric = record {
  handle_asymmetric_errors = asymmetric;
  minos_parameters = "mass" ∷ [];
  read_genvalues = λ ps. ps;
  read_fit_biases = λ ps. ps;
}

abbrev mass : Term → Option (Term × Term) → RooRealVar Term
mass v asym = record {
  name = "mass";
  title = "mass";
  unit = "";
  val = v;
  is_constant = false;
  lower = none;
  upper = none;
  error = some err;
  asym_error = asym;
}

-- With the upper error, the pull is the residual over the error.
pull-low :
    pull_value
      (terms true)
      (config true)
      (mass fit (some (lo, hi)))
      (mass initial none)
      (mass bias none)
    ≡ over
        (res_value (terms true) (config true) (mass fit none) (mass initial none) (mass bias none))
        hi
unfolding pull_value res_value
pull-low = refl

-- With the symmetric error, the bias has the other sign: minus (initial - fit - bias) is
-- fit - initial + bias, where the residual is minus (bias + initial - fit).
pull-symmetric :
    pull_value (terms true) (config true) (mass fit none) (mass initial none) (mass bias none)
    ≡ over (negative (minus (minus initial fit) bias)) err
unfolding pull_value
pull-symmetric = refl

res-symmetric :
    res_value (terms true) (config true) (mass fit none) (mass initial none) (mass bias none)
    ≡ negative (minus (plus bias initial) fit)
unfolding res_value
res-symmetric = refl

-- MINOS was asked for the parameter and has no asymmetric errors.
evaluate-minos :
    evaluate_parameters
      (terms true)
      (config true)
      (mass fit none ∷ [])
      (mass initial none ∷ [])
      (mass bias none ∷ [])
      []
      (new_evaluation (terms true) (config true) [])
    ≡ some (record {
      parameters =
          ("mass", fit)
          ∷ ("mass_pull", over (negative (minus (minus initial fit) bias)) err)
          ∷ ("mass_res", negative (minus (plus bias initial) fit))
          ∷ ("mass_init", initial)
          ∷ ("mass_err", err)
          ∷ [];
      parameters_at_limit = number 0;
      minos_problems = plus (number 0) (number 1);
      unexpected_pulls_counter = ("mass", 1) ∷ [];
    })
unfolding evaluate_parameters
evaluate-minos = refl

-- A parameter without an initial value is read through a null pointer.
evaluate-null :
    evaluate_parameters
      (terms true)
      (config true)
      (mass fit none ∷ [])
      []
      (mass bias none ∷ [])
      []
      (new_evaluation (terms true) (config true) [])
    ≡ none
unfolding evaluate_parameters
evaluate-null = refl

-- Integers as doubles; quotients are not used.
abbrev integers : Double ℤ
integers = record {
  zero_ = pos 0;
  one = pos 1;
  two = pos 2;
  five = pos 5;
  hundred = pos 100;
  tiny = pos 0;
  infinity = pos 1000;
  add = ◌+ℤ◌;
  sub = ◌-ℤ◌;
  mul = λ a b. a;
  div = λ a b. a;
  neg = λ a. pos 0 -ℤ a;
  abs = λ a. a;
  min = λ a b. a;
  less = ltb_ℤ;
  less_or_equal = λ a b. not (ltb_ℤ b a);
  equal = λ a b. not (ltb_ℤ a b) && not (ltb_ℤ b a);
}

abbrev integers_exact : Exact integers
integers_exact = record {
  value = λ a. a;
  value_add = λ a b. refl;
  value_sub = λ a b. refl;
  value_neg = λ a. refl;
}

abbrev settings : PullConfig ℤ
settings = record {
  handle_asymmetric_errors = true;
  minos_parameters = [];
  read_genvalues = λ ps. ps;
  read_fit_biases = λ ps. ps;
}

abbrev charge : ℤ → Option (ℤ × ℤ) → RooRealVar ℤ
charge v asym = record {
  name = "charge";
  title = "charge";
  unit = "";
  val = v;
  is_constant = false;
  lower = none;
  upper = none;
  error = some (pos 2);
  asym_error = asym;
}

pull_value_lem_example :
    IsPull integers settings integers_exact
      (charge (pos 7) (some (negsuc 1, pos 3)))
      (charge (pos 4) none)
      (charge (pos 1) none)
pull_value_lem_example =
    pull_value_lem integers settings integers_exact (charge (pos 7) (some (negsuc 1, pos 3)))
      (charge (pos 4) none) (charge (pos 1) none)
