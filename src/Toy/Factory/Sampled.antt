-- ===== src/Toy/Factory/Sampled.antt =====
-- GenerateDiscreteSample where every variable is known.
use mathlib.Core.List.{append_assoc, append-nil}
use doo_fit.Base.{
  ℕ, String, true, some, List, [], ◌∷◌, ◌++◌, map, ℤ, pos_part, ◌≡◌, refl, sym, ap, ◌∙◌, subst,
}
use doo_fit.Config.Distribution.{DiscreteProbabilityDistribution}
use doo_fit.Toy.Factory.Datasets.{Result, ok, RooDataSet}
use doo_fit.Toy.Factory.Append.{Unique}
use doo_fit.Toy.Factory.Discrete.{
  Observable, DiscVar, RooVariables, Values, is_variable, find_observable, prepare,
  generate_discrete_sample,
}
use doo_fit.Toy.Factory.NamedValues.{zip, names, Apart, Apart-append, add_to_set-append}
use doo_fit.Toy.Factory.Columns.{wanted, Fills, draw_rows_lem}

-- The names and the values of observables.
abbrev pub names_of : {D : Type 0} → List (Observable D) → List String
names_of [] = []
names_of (o ∷ os) = o.name ∷ names_of os

abbrev pub values_of : {D : Type 0} → List (Observable D) → List D
values_of [] = []
values_of (o ∷ os) = o.value ∷ values_of os

module _ {D : Type 0} (roo : RooVariables D) where
  -- The observables that the distributions name are real variables or categories.
  abbrev pub Found :
      List (Observable D) → List (DiscreteProbabilityDistribution D) → List (Observable D) → Type 0
  Found obs [] [] = Unit
  Found obs (d ∷ ds) (o ∷ os) =
      (find_observable (roo.c_str d.var_name) obs ≡ some o)
      × (is_variable o.kind ≡ true)
      × Found obs ds os
  Found obs _ _ = ⊥

  abbrev pub disc_var : DiscreteProbabilityDistribution D → Observable D → DiscVar D
  disc_var d o = record { var_name = o.name; var_kind = o.kind; probabilities = d.probabilities }

  -- The variables, each with its distribution.
  abbrev pub variables :
      List (DiscreteProbabilityDistribution D) → List (Observable D) → List (DiscVar D)
  variables (d ∷ ds) (o ∷ os) = disc_var d o ∷ variables ds os
  variables _ _ = []

  names-variables :
      (obs : List (Observable D)) (ds : List (DiscreteProbabilityDistribution D))
      (os : List (Observable D))
      → Found obs ds os
      → names (variables ds os) ≡ names_of os
  names-variables obs [] [] f = refl
  names-variables obs [] (o ∷ os) f = absurd f
  names-variables obs (d ∷ ds) [] f = absurd f
  names-variables obs (d ∷ ds) (o ∷ os) (e, k, f) = ap (◌∷◌ o.name) (names-variables obs ds os f)

  same_data :
      (cs cs' : List String) (rs rs' : List (Values D))
      → cs ≡ cs'
      → rs ≡ rs'
      → ◌≡◌ {A = RooDataSet (Values D)}
          (record { columns = cs; rows = rs })
          (record { columns = cs'; rows = rs' })
  same_data cs cs' rs rs' e f = cc

  same_ok :
      (vars vars' : List (DiscVar D)) (set set' : Values D)
      → vars ≡ vars'
      → set ≡ set'
      → ◌≡◌ {A = Result (List (DiscVar D) × Values D)} (ok (vars, set)) (ok (vars', set'))
  same_ok vars vars' set set' e f = cc

  prepare-variables :
      (obs : List (Observable D)) (ds : List (DiscreteProbabilityDistribution D))
      (os : List (Observable D)) (vars : List (DiscVar D)) (set : Values D)
      → Found obs ds os
      → Unique (names_of os)
      → Apart set (names_of os)
      → prepare roo obs ds vars set
        ≡ ok (vars ++ variables ds os, set ++ zip (variables ds os) (values_of os))
  unfolding prepare
  prepare-variables obs [] [] vars set f u a =
      same_ok vars (vars ++ []) set (set ++ []) (sym (append-nil vars)) (sym (append-nil set))
  prepare-variables obs [] (o ∷ os) vars set f u a = absurd f
  prepare-variables obs (d ∷ ds) [] vars set f u a = absurd f
  prepare-variables obs (d ∷ ds) (o ∷ os) vars set (e, k, f) (u, us) (a, b) =
      rw (prepare, e)
        (rw (prepare, k)
          (rw (add_to_set-append o.name o.value set a) (
              prepare-variables obs ds os (vars ++ (disc_var d o ∷ []))
                (set ++ ((o.name, o.value) ∷ [])) f us
                (Apart-append set o.name o.value (names_of os) u b))
            ∙ same_ok _ _ _ _ (append_assoc vars (disc_var d o ∷ []) (variables ds os))
                (append_assoc set ((o.name, o.value) ∷ []) (zip (variables ds os) (values_of os)))))

  Fills-values_of :
      (uniform : ℕ → D) (obs : List (Observable D)) (ds : List (DiscreteProbabilityDistribution D))
      (os : List (Observable D))
      → Found obs ds os
      → Fills roo uniform (variables ds os) (values_of os)
  Fills-values_of uniform obs [] [] f = tt
  Fills-values_of uniform obs [] (o ∷ os) f = absurd f
  Fills-values_of uniform obs (d ∷ ds) [] f = absurd f
  Fills-values_of uniform obs (d ∷ ds) (o ∷ os) (e, k, f) = Fills-values_of uniform obs ds os f

  columns_zip :
      (obs : List (Observable D)) (ds : List (DiscreteProbabilityDistribution D))
      (os : List (Observable D))
      → Found obs ds os
      → map (λ v. v.0) (zip (variables ds os) (values_of os)) ≡ names_of os
  columns_zip obs [] [] f = refl
  columns_zip obs [] (o ∷ os) f = absurd f
  columns_zip obs (d ∷ ds) [] f = absurd f
  columns_zip obs (d ∷ ds) (o ∷ os) (e, k, f) = ap (◌∷◌ o.name) (columns_zip obs ds os f)

  Apart-nothing : (ns : List String) → Apart {D = D} [] ns
  Apart-nothing [] = tt
  Apart-nothing (n ∷ ns) = (λ h. h, Apart-nothing ns)

  -- If the distributions name distinct observables that are real variables or categories,
  -- GenerateDiscreteSample returns a data set with a row for each round in which some variable is
  -- drawn. A row has of each variable what its own random numbers give: number k of n variables takes
  -- the numbers k, n + k, 2 n + k, ..., and keeps its value in a round in which it is not drawn.
  pub generate_discrete_sample_lem :
      (uniform : ℕ → D) (obs : List (Observable D)) (ds : List (DiscreteProbabilityDistribution D))
      (os : List (Observable D)) (yield : ℤ)
      → Found obs ds os
      → Unique (names_of os)
      → generate_discrete_sample roo uniform obs ds yield
        ≡ ok (record {
          columns = names_of os;
          rows = wanted roo uniform (variables ds os) (values_of os) (pos_part yield) 0;
        })
  unfolding generate_discrete_sample
  generate_discrete_sample_lem uniform obs ds os yield f u =
      let vs = variables ds os in
      let xs = values_of os in
      let unique = subst Unique (sym (names-variables obs ds os f)) u in
      rw (prepare-variables obs ds os [] [] f u (Apart-nothing (names_of os))) (
        ap ok (
          same_data _ _ _ _ (columns_zip obs ds os f) (
            draw_rows_lem roo uniform vs xs (pos_part yield) unique (Apart-nothing (names vs))
              (Fills-values_of uniform obs ds os f))))
