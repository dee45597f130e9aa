-- ===== src/Toy/Study/SaveBatch.antt =====
-- What SaveFitResultWorker writes into the tree of fit results once the file is locked and open.
-- `F` stands for RooFitResult and `T` for the four times of a container.
use doo_fit.Base.{
  Bool, true, false, ◌&&◌, not, Option, none, some, List, [], ◌∷◌, ◌++◌, map, ℤ, if◌then◌else◌,
}

-- FitResultContainer
pub record FitResultContainer (F T : Type 0) : Type 0 where
  pub fit_result1 : F
  pub fit_result2 : Option F
  pub times : T
  pub seed : ℤ
  pub run_id : ℤ

-- An entry of the tree, with none for a branch that is not there or has no address.
pub record Row (F T : Type 0) : Type 0 where
  pub first : F
  pub second : Option F
  pub row_times : Option T
  pub row_seed : Option ℤ
  pub row_run_id : Option ℤ

-- The tree: which branches it has, and its entries.
pub record Tree (F T : Type 0) : Type 0 where
  pub branch1 : Bool
  pub branch2 : Bool
  pub time_branches : Bool
  pub seed_branch : Bool
  pub run_id_branch : Bool
  pub rows : List (Row F T)

-- ExceptionCannotStoreFitResult
pub data Saved (A : Type 0) : Type 0 where
  saved : A → Saved A
  cannot_store : Saved A

module _ {F : Type 0} where
  abbrev pub is_set : Option F → Bool
  is_set none = false
  is_set (some f) = true

module _ {F T : Type 0} where
  -- `tree_results->Fill()`; `second` says that the second branch has an address.
  unfoldable pub fill : Bool → Tree F T → FitResultContainer F T → Row F T
  fill second t c = record {
    first = c.fit_result1;
    second = if second then c.fit_result2 else none;
    row_times = if t.time_branches then some c.times else none;
    row_seed = if t.seed_branch then some c.seed else none;
    row_run_id = if t.run_id_branch then some c.run_id else none;
  }

  -- The first container of the queue binds the branches for all.
  unfoldable pub fill_all : Bool → Tree F T → List (FitResultContainer F T) → Tree F T
  unfolding fill
  fill_all second t cs = record t { rows = t.rows ++ map (fill second t) cs }

  abbrev pub new_tree : Bool → Tree F T
  new_tree second = record {
    branch1 = true;
    branch2 = second;
    time_branches = true;
    seed_branch = true;
    run_id_branch = true;
    rows = [];
  }

  -- The part of SaveFitResultWorker from `saver_queue.front()` to `Write`: the file has no such tree,
  -- or it has one.
  unfoldable pub save_batch :
      Option (Tree F T) → List (FitResultContainer F T) → Saved (Option (Tree F T))
  save_batch file [] = saved file
  save_batch none (c ∷ cs) =
      saved (some (fill_all (is_set c.fit_result2) (new_tree (is_set c.fit_result2)) (c ∷ cs)))
  save_batch (some t) (c ∷ cs) =
      if not t.branch1
      then cannot_store
      else if is_set c.fit_result2 && not t.branch2
      then cannot_store
      else saved (some (fill_all (is_set c.fit_result2) t (c ∷ cs)))
