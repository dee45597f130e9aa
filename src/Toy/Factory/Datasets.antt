-- ===== src/Toy/Factory/Datasets.antt =====
-- RooDataSet as the columns and the rows that ToyFactoryStd reads and writes, and the functions of
-- ToyFactoryStd.cpp that merge and append data sets. What RooFit does with one row is a parameter.
use mathlib.Core.Option
use doo_fit.Toy.Factory.Shuffle.{new_order}
use doo_fit.Base.{
  ℕ, zero, suc, ◌+◌, ◌-◌, ◌==◌, ltb, String, str_eq, Bool, true, false, ◌&&◌, ◌||◌, not, Option,
  none, some, List, [], ◌∷◌, ◌++◌, length, get_elem?, if◌then◌else◌,
}

-- The exceptions, `rounding_error` of boost, and undefined behaviour: a null pointer is read, or a part
-- of the data set that is returned is deleted.
pub data Error : Type 0 where
  datasets_not_disjoint : Error
  datasets_not_appendable : Error
  not_generating_discrete_data : Error
  roofit_sending_sigabrt : Error
  terminated : Error
  not_generating_data : Error
  pdf_not_set : Error
  arg_set_not_set : Error
  null_pointer : Error
  rounding_error : Error
  deletes_own_columns : Error

pub data Result {ℓ} (A : Type ℓ) : Type ℓ where
  ok : A → Result A
  throw : Error → Result A

infixl 5 ◌>>=◌
abbrev pub ◌>>=◌ {ℓ κ} : {A : Type ℓ} {B : Type κ} → Result A → (A → Result B) → Result B
ok a >>= f = f a
throw e >>= f = throw e

-- A pointer that is read, and is null where there is none.
abbrev pub deref {ℓ} : {A : Type ℓ} → Option A → Result A
deref none = throw null_pointer
deref (some a) = ok a

pub record RooDataSet (Row : Type 0) : Type 0 where
  pub columns : List String
  pub rows : List Row

-- RooFit: the row that `add` stores of a row in a data set with some columns and rows, the row that
-- `merge` makes of two, and the columns that `merge` leaves.
pub record RooFit (Row : Type 0) : Type 0 where
  pub stored : List String → List Row → Row → Row
  pub joined : Row → Row → Row
  pub joined_columns : List String → List String → List String

-- RooArgSet::contains
unfoldable pub contains : List String → String → Bool
contains [] c = false
contains (d ∷ ds) c = str_eq d c || contains ds c

-- RooAbsCollection::overlaps
unfoldable pub overlaps : List String → List String → Bool
unfolding contains
overlaps cs [] = false
overlaps cs (d ∷ ds) = contains cs d || overlaps cs ds

module _ {Row : Type 0} where
  -- One ignore set at least has the column.
  unfoldable pub overlap_in_ignore : List (RooDataSet Row) → String → Bool
  unfolding contains
  overlap_in_ignore [] c = false
  overlap_in_ignore (i ∷ is) c = contains i.columns c || overlap_in_ignore is c

  -- The loop over the columns of the slave.
  unfoldable pub not_mergable_columns : List String → List (RooDataSet Row) → List String → Bool
  unfolding contains overlap_in_ignore
  not_mergable_columns master ignore [] = false
  not_mergable_columns master ignore (c ∷ cs) =
      (if contains master c then not (overlap_in_ignore ignore c) else false)
      || not_mergable_columns master ignore cs

  unfoldable pub not_mergable : Option (List (RooDataSet Row)) → List String → List String → Bool
  unfolding not_mergable_columns
  not_mergable none master slave = true
  not_mergable (some ignore) master slave = not_mergable_columns master ignore slave

  -- RooDataSet::merge of data sets of equal size.
  unfoldable pub join_rows : (Row → Row → Row) → List Row → List Row → List Row
  join_rows f [] ys = []
  join_rows f (x ∷ xs) [] = []
  join_rows f (x ∷ xs) (y ∷ ys) = f x y ∷ join_rows f xs ys

  -- Row number `i` of the data sets one after the other, as AppendDatasets finds it.
  unfoldable pub drawn : RooDataSet Row → RooDataSet Row → ℕ → Result Row
  drawn m s i =
      if ltb i (length m.rows)
      then deref (get_elem? m.rows i)
      else deref (get_elem? s.rows (i - length m.rows))

module _ {Row : Type 0} (roo : RooFit Row) where
  unfoldable pub merge : RooDataSet Row → RooDataSet Row → RooDataSet Row
  unfolding join_rows
  merge m s = record {
    columns = roo.joined_columns m.columns s.columns;
    rows = join_rows roo.joined m.rows s.rows;
  }

  -- MergeDatasets. It changes the master, which is returned.
  unfoldable pub merge_datasets :
      RooDataSet Row → RooDataSet Row → Option (List (RooDataSet Row)) → Result (RooDataSet Row)
  unfolding overlaps not_mergable merge
  merge_datasets m s ignore =
      if not (length m.rows == length s.rows)
      then throw datasets_not_disjoint
      else if overlaps m.columns s.columns && not_mergable ignore m.columns s.columns
      then throw datasets_not_disjoint
      else ok (merge m s)

  -- The loop of MergeDatasetVector.
  unfoldable merge_all : RooDataSet Row → List (RooDataSet Row) → Result (RooDataSet Row)
  unfolding merge_datasets
  merge_all new [] = ok new
  merge_all new (d ∷ ds) = merge_datasets new d none >>= λ new'. merge_all new' ds

  -- MergeDatasetVector. `throw;` with no exception ends the program.
  unfoldable pub merge_dataset_vector : List (RooDataSet Row) → Result (RooDataSet Row)
  unfolding merge_all
  merge_dataset_vector [] = throw terminated
  merge_dataset_vector (d ∷ ds) = merge_all d ds

  -- RooDataSet::add
  unfoldable pub add : RooDataSet Row → Row → RooDataSet Row
  add d r = record d { rows = d.rows ++ (roo.stored d.columns d.rows r ∷ []) }

  -- The last loop of AppendDatasets, over new_order.
  unfoldable pub append_rows :
      RooDataSet Row → RooDataSet Row → List ℕ → RooDataSet Row → Result (RooDataSet Row)
  unfolding drawn add
  append_rows m s [] new = ok new
  append_rows m s (i ∷ is) new = drawn m s i >>= λ r. append_rows m s is (add new r)

-- The loop of AppendDatasets over the columns of the slave.
unfoldable pub contains_all : List String → List String → Bool
unfolding contains
contains_all cs [] = true
contains_all cs (d ∷ ds) = contains cs d && contains_all cs ds

-- AppendDatasets. `integer i` is what `rand->Integer(i + 1)` returns.
module _ {Row : Type 0} (roo : RooFit Row) (integer : ℕ → ℕ) where
  unfoldable pub append_datasets : RooDataSet Row → RooDataSet Row → Result (RooDataSet Row)
  unfolding contains_all append_rows new_order
  append_datasets m s =
      if not (length m.columns == length s.columns)
      then throw datasets_not_appendable
      else if not (contains_all m.columns s.columns)
      then throw datasets_not_appendable
      else append_rows roo m s (new_order integer (length m.rows + length s.rows))
          (record { columns = m.columns; rows = [] })

-- std::set<int>::count of positions_slave.
unfoldable pub taken : List ℕ → ℕ → Bool
taken [] i = false
taken (p ∷ ps) i = p == i || taken ps i

-- The loop of MixMergeDatasets that chooses positions for `n` rows, on fuel: `i` are chosen, and
-- `pos t` is the random position number `t`. none: the loop goes on.
unfoldable pub choose : (ℕ → ℕ) → (fuel t i n : ℕ) → List ℕ → Option (List ℕ)
unfolding taken
choose pos zero t i n ps = if ltb i n then none else some ps
choose pos (suc fuel) t i n ps =
    let old = taken ps (pos t) in
    let rest =
      choose pos fuel (suc t) (if old then i else suc i) n (if old then ps else pos t ∷ ps) in
    if ltb i n then rest else some ps

module _ {Row : Type 0} where
  -- The row that MixMergeDatasets puts at position `i`.
  unfoldable pub mixed_row : List ℕ → RooDataSet Row → RooDataSet Row → ℕ → ℕ → Result Row
  unfolding taken
  mixed_row ps m s i n_slave =
      if taken ps i then deref (get_elem? s.rows n_slave) else deref (get_elem? m.rows i)

module _ {Row : Type 0} (roo : RooFit Row) where
  -- Its last loop, over the positions i, i + 1, ...
  unfoldable pub mix_rows :
      List ℕ
      → RooDataSet Row
      → RooDataSet Row
      → (rounds i n_slave : ℕ) → RooDataSet Row
      → Result (RooDataSet Row)
  unfolding mixed_row add
  mix_rows ps m s zero i n_slave new = ok new
  mix_rows ps m s (suc n) i n_slave new = mixed_row ps m s i n_slave >>= λ r.
      mix_rows ps m s n (suc i) (if taken ps i then suc n_slave else n_slave) (add roo new r)

  -- MixMergeDatasets, on fuel for the first loop.
  unfoldable pub mix_merge_datasets :
      (ℕ → ℕ) → ℕ → RooDataSet Row → RooDataSet Row → Option (Result (RooDataSet Row))
  unfolding choose mix_rows
  mix_merge_datasets pos fuel m s =
      Option.map
        (λ ps. mix_rows ps m s (length m.rows) 0 0 (record { columns = m.columns; rows = [] }))
        (choose pos fuel 0 0 (length s.rows) [])
