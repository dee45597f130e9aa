-- ===== src/Toy/Factory/Discrete.antt =====
-- GenerateDiscreteSample of ToyFactoryStd.cpp. `D` stands for double; the comparison, what a variable
-- holds after it is set, and the uniform random numbers are parameters.
use doo_fit.Base.{
  ℕ, zero, suc, String, str_eq, Bool, true, false, Option, none, some, List, [], ◌∷◌, ◌++◌, map, ℤ,
  pos_part, if◌then◌else◌,
}
use doo_fit.Config.CommaSeparated.{Text}
use doo_fit.Config.Distribution.{DiscreteProbabilityDistribution}
use doo_fit.Toy.Factory.Datasets.{
  Result, ok, throw, ◌>>=◌, terminated, not_generating_discrete_data, RooDataSet,
}

-- RooRealVar, RooCategory, and other classes.
pub data Kind : Type 0 where
  real category other : Kind

-- An observable of argset_generation_observables, with the value that it holds.
pub record Observable (D : Type 0) : Type 0 where
  pub name : String
  pub kind : Kind
  pub value : D

-- A tuple of disc_vars: the variable, and its values with their cumulative probabilities.
pub record DiscVar (D : Type 0) : Type 0 where
  pub var_name : String
  pub var_kind : Kind
  pub probabilities : List (D × D)

-- `c_str()` of a name, `r < cum_probs[j]`, and what a variable that held a value holds after setVal or
-- setIndex of another.
pub record RooVariables (D : Type 0) : Type 0 where
  pub c_str : Text → String
  pub less : D → D → Bool
  pub set_to : Kind → String → D → D → D

-- RooArgSet: names and values.
abbrev pub Values : Type 0 → Type 0
Values D = List (String × D)

abbrev pub is_variable : Kind → Bool
is_variable real = true
is_variable category = true
is_variable other = false

module _ {D : Type 0} where
  -- RooArgSet::find
  unfoldable pub find_observable : String → List (Observable D) → Option (Observable D)
  find_observable n [] = none
  find_observable n (o ∷ os) =
      let rest = find_observable n os in if str_eq o.name n then some o else rest

  -- RooArgSet::add, which takes no second variable of a name.
  unfoldable pub add_to_set : String → D → Values D → Values D
  add_to_set n x [] = (n, x) ∷ []
  add_to_set n x ((j, y) ∷ set) =
      let rest = add_to_set n x set in if str_eq j n then (j, y) ∷ set else (j, y) ∷ rest

  -- The variable of a name is set.
  unfoldable pub change_value : String → (D → D) → Values D → Values D
  change_value n f [] = []
  change_value n f ((j, y) ∷ set) =
      let rest = change_value n f set in if str_eq j n then (j, f y) ∷ set else (j, y) ∷ rest

  module _ (roo : RooVariables D) where
    -- The first loop: disc_vars and disc_argset.
    unfoldable pub prepare :
        List (Observable D)
        → List (DiscreteProbabilityDistribution D)
        → List (DiscVar D)
        → Values D
        → Result (List (DiscVar D) × Values D)
    unfolding find_observable add_to_set
    prepare obs [] vars set = ok (vars, set)
    prepare obs (d ∷ ds) vars set = elim (find_observable (roo.c_str d.var_name) obs) [
      | none ↦ throw not_generating_discrete_data
      | some o ↦ elim (is_variable o.kind) [
        | false ↦ throw terminated
        | true ↦
            prepare obs ds
              (vars
                ++ (record { var_name = o.name; var_kind = o.kind; probabilities = d.probabilities }
                    ∷ []))
              (add_to_set o.name o.value set)
      ]
    ]

    -- The walk through the cumulative probabilities: the value of the first above `r`.
    unfoldable pub walk : D → List (D × D) → Option D
    walk r [] = none
    walk r ((x, c) ∷ ps) = let rest = walk r ps in if roo.less r c then some x else rest

    -- `uniform t` is the random number `t` of this call.
    module _ (uniform : ℕ → D) where
      -- The loop over the variables: the random numbers used, disc_argset and add_to_argset.
      unfoldable pub draw_variables : List (DiscVar D) → ℕ → Values D → Bool → ℕ × Values D × Bool
      unfolding walk change_value
      draw_variables [] t set add = (t, set, add)
      draw_variables (v ∷ vs) t set add = elim (walk (uniform t) v.probabilities) [
        | none ↦ draw_variables vs (suc t) set add
        | some x ↦
            draw_variables vs (suc t)
              (change_value v.var_name (λ y. roo.set_to v.var_kind v.var_name y x) set) true
      ]

      -- The loop that generates the data set.
      unfoldable pub draw_rows :
          List (DiscVar D) → (rounds t : ℕ) → Values D → List (Values D) → List (Values D)
      unfolding draw_variables
      draw_rows vars zero t set rows = rows
      draw_rows vars (suc n) t set rows =
          let (t', set', add) = draw_variables vars t set false in
          draw_rows vars n t' set' (if add then rows ++ (set' ∷ []) else rows)

      -- GenerateDiscreteSample
      unfoldable pub generate_discrete_sample :
          List (Observable D)
          → List (DiscreteProbabilityDistribution D)
          → ℤ
          → Result (RooDataSet (Values D))
      unfolding prepare draw_rows
      generate_discrete_sample obs ds yield = prepare obs ds [] [] >>= λ (vars, set).
          ok (record {
            columns = map (λ v. v.0) set;
            rows = draw_rows vars (pos_part yield) 0 set [];
          })
