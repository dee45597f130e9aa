-- ===== src/Toy/Factory/DiscreteTests.antt =====
-- Runs of GenerateDiscreteSample, and the theorem at a concrete input.
use doo_fit.Base.{
  ℕ, zero, suc, ◌*◌, ◌%◌, ltb, eq_iff, String, [], ◌∷◌, pos, some, inl, inr, ◌≡◌, refl,
}
use doo_fit.Config.CommaSeparated.{Text}
use doo_fit.Config.Distribution.{DiscreteProbabilityDistribution}
use doo_fit.Toy.Factory.Datasets.{ok, throw, not_generating_discrete_data, terminated}
use doo_fit.Toy.Factory.Append.{Unique}
use doo_fit.Toy.Factory.Discrete.{
  real, category, other, Observable, RooVariables, find_observable, walk, generate_discrete_sample,
}
use doo_fit.Toy.Factory.Sampled.{names_of, generate_discrete_sample_lem}

-- Probabilities in tenths; the names of the variables are numbered.
abbrev spell : Text → String
spell (zero ∷ []) = "flag"
spell (suc zero ∷ []) = "tag"
spell _ = "none"

abbrev roo : RooVariables ℕ
roo = record { c_str = spell; less = ltb; set_to = λ k n y x. x }

abbrev flag : Observable ℕ
flag = record { name = "flag"; kind = category; value = 0 }

abbrev tag : Observable ℕ
tag = record { name = "tag"; kind = real; value = 0 }

abbrev formula : Observable ℕ
formula = record { name = "flag"; kind = other; value = 0 }

-- The flag is 1 or 2, in seven cases of ten; the tag is always 5.
abbrev flags : DiscreteProbabilityDistribution ℕ
flags = record { var_name = 0 ∷ []; probabilities = (1, 3) ∷ (2, 7) ∷ [] }

abbrev tags : DiscreteProbabilityDistribution ℕ
tags = record { var_name = 1 ∷ []; probabilities = (5, 10) ∷ [] }

abbrev uniform : ℕ → ℕ
uniform t = t * 4 % 10

-- In the second round the flag is not drawn: the row has the flag of the first.
discrete-stale :
    generate_discrete_sample roo uniform (flag ∷ tag ∷ []) (flags ∷ tags ∷ []) (pos 3)
    ≡ ok (record {
      columns = "flag" ∷ "tag" ∷ [];
      rows =
          (("flag", 1) ∷ ("tag", 5) ∷ [])
          ∷ (("flag", 1) ∷ ("tag", 5) ∷ [])
          ∷ (("flag", 2) ∷ ("tag", 5) ∷ [])
          ∷ [];
    })
unfolding generate_discrete_sample
discrete-stale = refl

-- With the flag alone, that round has no row.
discrete-alone :
    generate_discrete_sample roo (λ t. t * 8 % 10) (flag ∷ tag ∷ []) (flags ∷ []) (pos 3)
    ≡ ok (record { columns = "flag" ∷ []; rows = (("flag", 1) ∷ []) ∷ (("flag", 2) ∷ []) ∷ [] })
unfolding generate_discrete_sample
discrete-alone = refl

discrete-missing :
    generate_discrete_sample roo uniform (tag ∷ []) (flags ∷ []) (pos 3)
    ≡ throw not_generating_discrete_data
unfolding generate_discrete_sample
discrete-missing = refl

discrete-formula :
    generate_discrete_sample roo uniform (formula ∷ []) (flags ∷ []) (pos 3) ≡ throw terminated
unfolding generate_discrete_sample
discrete-formula = refl

distinct : Unique (names_of (flag ∷ tag ∷ []))
distinct = (λ h. elim h [ inl e ↦ cc ((eq_iff "tag" "flag").1 e) | inr n ↦ n ], (λ h. h, tt))

found_flag : find_observable "flag" (flag ∷ tag ∷ []) ≡ some flag
unfolding find_observable
found_flag = refl

found_tag : find_observable "tag" (flag ∷ tag ∷ []) ≡ some tag
unfolding find_observable
found_tag = refl

generate_discrete_sample_lem_example :
    generate_discrete_sample roo uniform (flag ∷ tag ∷ []) (flags ∷ tags ∷ []) (pos 3)
    ≡ ok (record {
      columns = "flag" ∷ "tag" ∷ [];
      rows =
          (("flag", 1) ∷ ("tag", 5) ∷ [])
          ∷ (("flag", 1) ∷ ("tag", 5) ∷ [])
          ∷ (("flag", 2) ∷ ("tag", 5) ∷ [])
          ∷ [];
    })
unfolding walk
generate_discrete_sample_lem_example =
    generate_discrete_sample_lem roo uniform (flag ∷ tag ∷ []) (flags ∷ tags ∷ []) (flag ∷ tag ∷ [])
      (pos 3) (found_flag, refl, (found_tag, refl, tt)) distinct
