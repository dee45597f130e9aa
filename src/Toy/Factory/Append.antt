-- ===== src/Toy/Factory/Append.antt =====
-- AppendDatasets and the rows of both data sets.
use mathlib.Core.List.{Mem, Perm, mem-cons_self, mem-cons_of_mem, append_assoc, append-nil}
use mathlib.Core.List.Perm
use doo_fit.Base.{
  ℕ, ◌+◌, ◌<◌, ◌≤◌, ◌==◌, ==_iff, String, str_eq, eq_iff, true, List, [], ◌∷◌, ◌++◌, length, All,
  Bool-cases, length-append, inl, inr, ◌⊎◌, ◌≡◌, refl, ap, ◌∙◌, arith,
}
use doo_fit.Toy.Factory.Rows.{
  drawn-append, get_elem?-some, All-get_elem?, All-append, All-map, gather, gather-range_from,
  gather-perm, mem-range_from,
}
use doo_fit.Toy.Factory.Shuffle.{new_order, new_order-perm}
use doo_fit.Toy.Factory.Datasets.{
  Result, ok, throw, datasets_not_appendable, RooDataSet, RooFit, contains, add, append_rows,
  contains_all, append_datasets,
}

abbrev pub Has : List String → String → Type 0
Has [] c = ⊥
Has (d ∷ ds) c = (d ≡ c) ⊎ Has ds c

-- The names of a RooArgSet are distinct.
abbrev pub Unique : List String → Type 0
Unique [] = Unit
Unique (c ∷ cs) = ¬ Has cs c × Unique cs

-- The same columns, in any order.
abbrev pub SameColumns : List String → List String → Type 0
SameColumns cs ds = (length cs ≡ length ds) × All (Has cs) ds

-- What RooFit documents of RooDataSet::add: a row with the columns of the data set is stored as it
-- is. `fits` says that a row has some columns; their order does not matter.
pub record Laws {Row : Type 0} (roo : RooFit Row) : Type 1 where
  pub Fits : List String → Row → Type 0
  pub stored-fits :
      (cs : List String) (rs : List Row) (r : Row) → Fits cs r → roo.stored cs rs r ≡ r
  pub reorder :
      (cs ds : List String) (r : Row) → Unique ds → SameColumns cs ds → Fits ds r → Fits cs r

pub Has-contains : (cs : List String) (c : String) → Has cs c → contains cs c ≡ true
unfolding contains
Has-contains [] c h = absurd h
Has-contains (d ∷ cs) c (inl e) = ground (arith, eq_iff d c)
Has-contains (d ∷ cs) c (inr h) = ground (arith, Has-contains cs c h)

pub contains-Has : (cs : List String) (c : String) → contains cs c ≡ true → Has cs c
unfolding contains
contains-Has [] c h = cc
contains-Has (d ∷ cs) c h = elim (Bool-cases (str_eq d c)) [
  | inl t ↦ inl ((eq_iff d c).0 t)
  | inr t ↦ inr (contains-Has cs c (rw t at h))
]

contains_all-All : (cs ds : List String) → contains_all cs ds ≡ true → All (Has cs) ds
unfolding contains_all
contains_all-All cs [] h = tt
contains_all-All cs (d ∷ ds) h =
    (contains-Has cs d (ground arith), contains_all-All cs ds (ground arith))

pub All-contains_all : (cs ds : List String) → All (Has cs) ds → contains_all cs ds ≡ true
unfolding contains_all
All-contains_all cs [] h = refl
All-contains_all cs (d ∷ ds) h = rw (Has-contains cs d h.0) (All-contains_all cs ds h.1)

same_columns : (cs ds : List String) → Dec (SameColumns cs ds)
same_columns cs ds = elim (Bool-cases (length cs == length ds)) [
  | inl t ↦ elim (Bool-cases (contains_all cs ds)) [
    | inl c ↦ yes ((==_iff _ _).0 t, contains_all-All cs ds c)
    | inr c ↦ no (λ h. cc (All-contains_all cs ds h.1))
  ]
  | inr t ↦ no (λ h. cc ((==_iff (length cs) (length ds)).1 h.0))
]

module _ {Row : Type 0} (roo : RooFit Row) (laws : Laws roo) where
  open laws use {Fits, stored-fits, reorder}

  pub append_rows_lem :
      (m s : RooDataSet Row) (cs : List String)
      → All (Fits cs) (m.rows ++ s.rows)
      → (is : List ℕ) (rs : List Row) → ((k : ℕ) → Mem k is → k < length (m.rows ++ s.rows))
      → append_rows roo m s is (record { columns = cs; rows = rs })
        ≡ ok (record { columns = cs; rows = rs ++ gather (m.rows ++ s.rows) is })
  unfolding append_rows gather add
  append_rows_lem m s cs fit [] rs small = rw (append-nil rs) refl
  append_rows_lem m s cs fit (i ∷ is) rs small =
      let (r, e) = get_elem?-some (m.rows ++ s.rows) i (small i mem-cons_self) in
      rw
        (
          drawn-append m s i,
          e,
          stored-fits cs rs r (All-get_elem? (Fits cs) (m.rows ++ s.rows) i r fit e),
        )
        (append_rows_lem m s cs fit is (rs ++ (r ∷ [])) (λ k h. small k (mem-cons_of_mem i h))
          ∙ ap (λ l. ok (record { columns = cs; rows = l }))
              (append_assoc rs (r ∷ []) (gather (m.rows ++ s.rows) is)))

  -- What AppendDatasets returns where the columns are the same.
  abbrev pub Appended : RooDataSet Row → RooDataSet Row → Result (RooDataSet Row) → Type 0
  Appended m s r =
      (d : RooDataSet Row) × (r ≡ ok d) × (d.columns ≡ m.columns) × Perm d.rows (m.rows ++ s.rows)

  module _ (integer : ℕ → ℕ) where
    pub append_datasets_same :
        (m s : RooDataSet Row)
        → length m.columns ≡ length s.columns
        → contains_all m.columns s.columns ≡ true
        → append_datasets roo integer m s
          ≡ append_rows roo m s
              (new_order integer (length m.rows + length s.rows))
              (record { columns = m.columns; rows = [] })
    unfolding append_datasets
    append_datasets_same m s e c = ground arith

    append_datasets_other :
        (m s : RooDataSet Row)
        → ¬ SameColumns m.columns s.columns
        → append_datasets roo integer m s ≡ throw datasets_not_appendable
    unfolding append_datasets
    append_datasets_other m s other = elim (Bool-cases (length m.columns == length s.columns)) [
      | inl t ↦ elim (Bool-cases (contains_all m.columns s.columns)) [
        | inl c ↦ absurd (other ((==_iff _ _).0 t, contains_all-All m.columns s.columns c))
        | inr c ↦ rw (t, c) refl
      ]
      | inr t ↦ rw t refl
    ]

    append_datasets-Appended :
        (m s : RooDataSet Row)
        → All (Fits m.columns) (m.rows ++ s.rows)
        → ((i : ℕ) → integer i ≤ i)
        → length m.columns ≡ length s.columns
        → contains_all m.columns s.columns ≡ true
        → Appended m s (append_datasets roo integer m s)
    append_datasets-Appended m s fit bound e c =
        let n = length m.rows + length s.rows in
        let p = new_order-perm integer bound n in
        let all = length-append m.rows s.rows in
        (
          record { columns = m.columns; rows = gather (m.rows ++ s.rows) (new_order integer n) },
          append_datasets_same m s e c
              ∙ append_rows_lem m s m.columns fit (new_order integer n) []
                  (λ k h. omega (arith, all, mem-range_from n 0 k ((Perm.mem_iff p).0 h))),
          refl,
          Perm.trans (gather-perm (m.rows ++ s.rows) p)
              (rw (← all, gather-range_from (m.rows ++ s.rows) []) Perm.rfl),
        )

    -- Whatever the random numbers, AppendDatasets of data sets with the same columns returns a data set
    -- with the columns of the master and exactly the rows of both, in some order; with other columns it
    -- throws DatasetsNotAppendableException. The names of the slave's columns are distinct, the rows fit
    -- their columns, and a row that fits is added as it is.
    pub append_datasets_lem :
        (m s : RooDataSet Row)
        → ((i : ℕ) → integer i ≤ i)
        → Unique s.columns
        → All (Fits m.columns) m.rows
        → All (Fits s.columns) s.rows
        → (SameColumns m.columns s.columns × Appended m s (append_datasets roo integer m s))
          ⊎ (¬ SameColumns m.columns s.columns
              × (append_datasets roo integer m s ≡ throw datasets_not_appendable))
    append_datasets_lem m s bound unique fm fs = elim (same_columns m.columns s.columns) [
      | yes same ↦ inl (
        same,
        append_datasets-Appended m s
            (All-append (Fits m.columns) m.rows s.rows fm (
              All-map (Fits s.columns) (Fits m.columns) s.rows
                (λ r f. reorder m.columns s.columns r unique same f) fs))
            bound same.0 (All-contains_all m.columns s.columns same.1),
      )
      | no other ↦ inr (other, append_datasets_other m s other)
    ]
