-- ===== src/Toy/Factory/Tests.antt =====
-- Runs of the functions on data sets, and the theorems at concrete inputs.
use doo_fit.Base.{
  ℕ, zero, suc, ◌+◌, ◌*◌, ◌%◌, ◌<◌, ◌≤◌, eq_iff, none, some, List, [], ◌∷◌, ◌++◌, inl, inr, ◌⊎◌,
  ◌≡◌, refl, arith,
}
use doo_fit.Toy.Factory.Datasets.{
  ok, throw, datasets_not_disjoint, datasets_not_appendable, terminated, RooDataSet, RooFit,
  merge_datasets, merge_dataset_vector, append_datasets, choose, mix_merge_datasets,
}
use doo_fit.Toy.Factory.Append.{Laws, SameColumns, Unique, Appended, append_datasets_lem}
use doo_fit.Toy.Factory.Weaving.{Mixed}
use doo_fit.Toy.Factory.Mix.{mix_merge_datasets_lem}

-- Rows are numbers; a row that does not fit its data set is not stored as it is.
abbrev roo : RooFit ℕ
roo = record {
  stored = λ cs rs r. r;
  joined = λ a b. a * 100 + b;
  joined_columns = λ cs ds. cs ++ ds;
}

abbrev laws : Laws roo
laws = record {
  Fits = λ cs r. Unit {0};
  stored-fits = λ cs rs r f. refl;
  reorder = λ cs ds r u s f. tt;
}

abbrev masters : RooDataSet ℕ
masters = record { columns = "time" ∷ "mass" ∷ []; rows = 1 ∷ 2 ∷ 3 ∷ [] }

abbrev slaves : RooDataSet ℕ
slaves = record { columns = "mass" ∷ "time" ∷ []; rows = 8 ∷ 9 ∷ [] }

abbrev tags : RooDataSet ℕ
tags = record { columns = "tag" ∷ []; rows = 4 ∷ 5 ∷ 6 ∷ [] }

-- The random numbers of the shuffle.
abbrev halves : ℕ → ℕ
halves i = i * 3 % suc i

append-run :
    append_datasets roo halves masters slaves
    ≡ ok (record { columns = "time" ∷ "mass" ∷ []; rows = 3 ∷ 8 ∷ 9 ∷ 2 ∷ 1 ∷ [] })
unfolding append_datasets
append-run = refl

append-other : append_datasets roo halves masters tags ≡ throw datasets_not_appendable
unfolding append_datasets
append-other = refl

merge-run :
    merge_datasets roo masters tags none
    ≡ ok (record { columns = "time" ∷ "mass" ∷ "tag" ∷ []; rows = 104 ∷ 205 ∷ 306 ∷ [] })
unfolding merge_datasets
merge-run = refl

merge-overlap : merge_datasets roo masters masters none ≡ throw datasets_not_disjoint
unfolding merge_datasets
merge-overlap = refl

merge-ignore :
    merge_datasets roo masters masters (some (slaves ∷ []))
    ≡ ok (record { columns = "time" ∷ "mass" ∷ "time" ∷ "mass" ∷ []; rows = 101 ∷ 202 ∷ 303 ∷ [] })
unfolding merge_datasets
merge-ignore = refl

merge-vector : merge_dataset_vector roo (masters ∷ tags ∷ tags ∷ []) ≡ throw datasets_not_disjoint
unfolding merge_dataset_vector
merge-vector = refl

merge-nothing : merge_dataset_vector roo [] ≡ throw terminated
unfolding merge_dataset_vector
merge-nothing = refl

-- The random positions 2, 0, 1, 2, ...
abbrev spots : ℕ → ℕ
spots t = (t + 2) % 3

mix-run :
    mix_merge_datasets roo spots 3 masters slaves
    ≡ some (ok (record { columns = "time" ∷ "mass" ∷ []; rows = 8 ∷ 2 ∷ 9 ∷ [] }))
unfolding mix_merge_datasets
mix-run = refl

halves-le : (i : ℕ) → halves i ≤ i
halves-le i = grind arith

slaves-Unique : Unique slaves.columns
slaves-Unique = (λ h. elim h [ inl e ↦ cc ((eq_iff "time" "mass").1 e) | inr n ↦ n ], (λ h. h, tt))

spots-lt : (t : ℕ) → spots t < 3
spots-lt t = omega arith

spots_all : (p : ℕ) → p < 3 → (t : ℕ) × (t < 3) × (spots t ≡ p)
spots_all zero h = (1, omega arith, refl)
spots_all (suc zero) h = (2, omega arith, refl)
spots_all (suc (suc zero)) h = (0, omega arith, refl)
spots_all (suc (suc (suc p))) h = absurd (omega arith)

append_datasets_lem_example :
    (SameColumns masters.columns slaves.columns
      × Appended roo laws masters slaves (append_datasets roo halves masters slaves))
    ⊎ (¬ SameColumns masters.columns slaves.columns
        × (append_datasets roo halves masters slaves ≡ throw datasets_not_appendable))
append_datasets_lem_example =
    append_datasets_lem roo laws halves masters slaves halves-le slaves-Unique (tt, (tt, (tt, tt)))
      (tt, (tt, tt))

mix_merge_datasets_lem_example :
    (d : RooDataSet ℕ) × (ps : List ℕ) × (choose spots 3 0 0 2 [] ≡ some ps)
    × (mix_merge_datasets roo spots 3 masters slaves ≡ some (ok d))
    × Mixed ps masters slaves d
mix_merge_datasets_lem_example =
    mix_merge_datasets_lem roo laws spots 3 masters slaves spots-lt spots_all (omega arith)
      (tt, (tt, (tt, tt))) (tt, (tt, tt))
