-- ===== src/Toy/Factory/Merge.antt =====
-- The data sets that MergeDatasets takes.
use doo_fit.Base.{
  String, ◌==◌, ==_iff, Bool, true, false, ◌&&◌, Option, none, some, List, [], ◌∷◌, length, All,
  Bool-cases, inl, inr, ◌⊎◌, ◌≡◌, ◌≢◌, refl, arith,
}
use doo_fit.Toy.Factory.Datasets.{
  ok, throw, datasets_not_disjoint, RooDataSet, RooFit, contains, overlaps, overlap_in_ignore,
  not_mergable_columns, not_mergable, merge, merge_datasets,
}
use doo_fit.Toy.Factory.Append.{Has, Has-contains, contains-Has}

has : (cs : List String) (c : String) → Dec (Has cs c)
has cs c = elim (Bool-cases (contains cs c)) [
  | inl t ↦ yes (contains-Has cs c t)
  | inr t ↦ no (λ h. cc (Has-contains cs c h))
]

overlaps-disjoint : (cs ds : List String) → overlaps cs ds ≡ false → All (λ c. ¬ Has cs c) ds
unfolding overlaps
overlaps-disjoint cs [] h = tt
overlaps-disjoint cs (d ∷ ds) h =
    (λ k. cc (Has-contains cs d k), overlaps-disjoint cs ds (ground arith))

disjoint-overlaps : (cs ds : List String) → All (λ c. ¬ Has cs c) ds → overlaps cs ds ≡ false
unfolding overlaps
disjoint-overlaps cs [] a = refl
disjoint-overlaps cs (d ∷ ds) a = elim (Bool-cases (contains cs d)) [
  | inl t ↦ absurd (a.0 (contains-Has cs d t))
  | inr t ↦ rw t (disjoint-overlaps cs ds a.1)
]

module _ {Row : Type 0} where
  -- One of the data sets has the column.
  abbrev pub Ignored : List (RooDataSet Row) → String → Type 0
  Ignored [] c = ⊥
  Ignored (i ∷ is) c = Has i.columns c ⊎ Ignored is c

  -- The columns that both data sets have are columns of the data sets to ignore.
  abbrev pub Mergeable : Option (List (RooDataSet Row)) → List String → List String → Type 0
  Mergeable none cs ds = All (λ c. ¬ Has cs c) ds
  Mergeable (some ignore) cs ds = All (λ c. ¬ Has cs c ⊎ Ignored ignore c) ds

  Ignored-overlap :
      (is : List (RooDataSet Row)) (c : String) → Ignored is c → overlap_in_ignore is c ≡ true
  unfolding overlap_in_ignore
  Ignored-overlap [] c h = absurd h
  Ignored-overlap (i ∷ is) c (inl h) = rw (Has-contains i.columns c h) refl
  Ignored-overlap (i ∷ is) c (inr h) = ground (arith, Ignored-overlap is c h)

  overlap-Ignored :
      (is : List (RooDataSet Row)) (c : String) → overlap_in_ignore is c ≡ true → Ignored is c
  unfolding overlap_in_ignore
  overlap-Ignored [] c h = cc
  overlap-Ignored (i ∷ is) c h = elim (Bool-cases (contains i.columns c)) [
    | inl t ↦ inl (contains-Has i.columns c t)
    | inr t ↦ inr (overlap-Ignored is c (rw t at h))
  ]

  columns-Mergeable :
      (is : List (RooDataSet Row)) (cs ds : List String)
      → not_mergable_columns cs is ds ≡ false
      → Mergeable (some is) cs ds
  unfolding not_mergable_columns
  columns-Mergeable is cs [] h = tt
  columns-Mergeable is cs (d ∷ ds) h = elim (Bool-cases (contains cs d)) [
    | inl t ↦ elim (Bool-cases (overlap_in_ignore is d)) [
      | inl i ↦ (inr (overlap-Ignored is d i), columns-Mergeable is cs ds (rw (t, i) at h))
      | inr i ↦ cc (rw (t, i) at h)
    ]
    | inr t ↦ (inl (λ k. cc (Has-contains cs d k)), columns-Mergeable is cs ds (rw t at h))
  ]

  Mergeable-columns :
      (is : List (RooDataSet Row)) (cs ds : List String)
      → Mergeable (some is) cs ds
      → not_mergable_columns cs is ds ≡ false
  unfolding not_mergable_columns
  Mergeable-columns is cs [] a = refl
  Mergeable-columns is cs (d ∷ ds) (inl free, a) = elim (Bool-cases (contains cs d)) [
    | inl t ↦ absurd (free (contains-Has cs d t))
    | inr t ↦ rw t (Mergeable-columns is cs ds a)
  ]
  Mergeable-columns is cs (d ∷ ds) (inr i, a) =
      ground (arith, Ignored-overlap is d i, Mergeable-columns is cs ds a)

  -- The test of MergeDatasets.
  abbrev refused : Option (List (RooDataSet Row)) → List String → List String → Bool
  refused ignore cs ds = overlaps cs ds && not_mergable ignore cs ds

  weaken :
      (is : List (RooDataSet Row)) (cs ds : List String)
      → All (λ c. ¬ Has cs c) ds
      → Mergeable (some is) cs ds
  weaken is cs [] a = tt
  weaken is cs (d ∷ ds) a = (inl a.0, weaken is cs ds a.1)

  refused-Mergeable :
      (ignore : Option (List (RooDataSet Row))) (cs ds : List String)
      → refused ignore cs ds ≡ false
      → Mergeable ignore cs ds
  unfolding not_mergable
  refused-Mergeable none cs ds h = overlaps-disjoint cs ds (ground arith)
  refused-Mergeable (some is) cs ds h = elim (Bool-cases (overlaps cs ds)) [
    | inl t ↦ columns-Mergeable is cs ds (rw t at h)
    | inr t ↦ weaken is cs ds (overlaps-disjoint cs ds t)
  ]

  Mergeable-refused :
      (ignore : Option (List (RooDataSet Row))) (cs ds : List String)
      → Mergeable ignore cs ds
      → refused ignore cs ds ≡ false
  unfolding not_mergable
  Mergeable-refused none cs ds a = rw (disjoint-overlaps cs ds a) refl
  Mergeable-refused (some is) cs ds a = ground (arith, Mergeable-columns is cs ds a)

module _ {Row : Type 0} (roo : RooFit Row) where
  -- MergeDatasets merges data sets exactly if they have the same number of rows and every column that
  -- both have is a column of a data set to ignore; otherwise it throws DatasetsNotDisjointException.
  pub merge_datasets_lem :
      (m s : RooDataSet Row) (ignore : Option (List (RooDataSet Row)))
      → ((length m.rows ≡ length s.rows)
          × Mergeable ignore m.columns s.columns
          × (merge_datasets roo m s ignore ≡ ok (merge roo m s)))
        ⊎ (((length m.rows ≢ length s.rows) ⊎ (¬ Mergeable ignore m.columns s.columns))
            × (merge_datasets roo m s ignore ≡ throw datasets_not_disjoint))
  unfolding merge_datasets
  merge_datasets_lem m s ignore = elim (Bool-cases (length m.rows == length s.rows)) [
    | inl t ↦ elim (Bool-cases (refused ignore m.columns s.columns)) [
      | inl r ↦ inr (inr (λ a. cc (Mergeable-refused ignore m.columns s.columns a)), rw (t, r) refl)
      | inr r ↦
          inl ((==_iff _ _).0 t, refused-Mergeable ignore m.columns s.columns r, rw (t, r) refl)
    ]
    | inr t ↦ inr (inl (λ e. cc ((==_iff (length m.rows) (length s.rows)).1 e)), rw t refl)
  ]
