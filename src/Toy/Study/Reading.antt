-- ===== src/Toy/Study/Reading.antt =====
-- ReadFitResultWorker and the release of results. What the files hold is a parameter.
use doo_fit.Base.{
  ℕ, zero, suc, Bool, true, false, ◌&&◌, not, Option, none, some, List, [], ◌∷◌, ◌++◌, length, ℤ,
  pos, ltb_ℤ, if◌then◌else◌,
}
use doo_fit.Fitter.EasyFitResult.Convert.{RooFitResult, or_default}
use doo_fit.Toy.Study.SaveBatch.{FitResultContainer}
use doo_fit.Toy.Study.Saving.{ConcurrentQueue}
use doo_fit.Toy.Study.EasyResults.{FileTree}
use doo_fit.Toy.Study.Quality.{Numbers, fit_result_okay}

pub record Times (D : Type 0) : Type 0 where
  pub cpu1 : D
  pub real1 : D
  pub cpu2 : D
  pub real2 : D

abbrev pub Container : Type 0 → Type 0
Container D = FitResultContainer (RooFitResult D) (Times D)

-- An entry of a tree: none for a null result, or for a branch that is not there.
pub record Entry (D : Type 0) : Type 0 where
  pub fit_result : Option (RooFitResult D)
  pub fit_result2 : Option (RooFitResult D)
  pub time_cpu1 : Option D
  pub time_real1 : Option D
  pub time_cpu2 : Option D
  pub time_real2 : Option D
  pub entry_seed : Option ℤ
  pub entry_run_id : Option ℤ

-- A file with a tree: it cannot be opened, or has no such tree, or no branch of the first result
-- (and perhaps the branch "fr0_fcn"), or entries.
pub data Opened (D : Type 0) : Type 0 where
  unreadable : Opened D
  no_tree : Opened D
  no_branch : (easyfit : Bool) → Opened D
  entries : List (Entry D) → Opened D

-- The options of ToyStudyStdConfig that are read here.
pub record Config : Type 0 where
  pub read_results_filename_treename : List FileTree
  pub num_toys_read : ℤ
  pub min_acceptable_cov_matrix_quality : ℤ
  pub evaluate_reference_toys : Bool
  pub reference_toys_id : ℤ

-- `null_pointer` is undefined behaviour; `hangs` is `while (true) {}`.
pub data Outcome (S : Type 0) : Type 0 where
  returned : S → Outcome S
  cannot_read_fit_result : Outcome S
  null_pointer : Outcome S
  hangs : Outcome S

-- The members of ToyStudyStd that reading and evaluation use.
pub record Study (D : Type 0) (cq : ConcurrentQueue (Container D)) : Type 0 where
  pub fit_results : List (Container D)
  pub fit_results_by_seed : List (ℤ × Container D)
  pub fit_results_bookkeep : List (Container D)
  pub read_queue : cq.Queue
  pub release_queue : cq.Queue
  pub results_files_easyfit : List FileTree
  pub reading_fit_results : Bool

abbrev or_zero : Option ℤ → ℤ
or_zero none = pos 0
or_zero (some k) = k

-- `num_toys_read() > 0 && results_stored >= num_toys_read()`
abbrev pub limit_reached : ℤ → ℕ → Bool
limit_reached limit stored = ltb_ℤ (pos 0) limit && not (ltb_ℤ (pos stored) limit)

-- Where the loop over the files stands: it goes on, it has broken off, or it does not come back.
-- `stored` is results_stored.
pub data Progress (S : Type 0) : Type 0 where
  went_on : (stored : ℕ) → S → Progress S
  broke_off : S → Progress S
  lost_pointer : Progress S
  stuck : Progress S

module _ {D : Type 0} (cq : ConcurrentQueue (Container D)) where
  open cq use {contents, push, pop, disable_queue}

  -- PurgeReleasedFitResults, one round for each result that is released.
  unfoldable purge : ℕ → cq.Queue → cq.Queue
  purge zero q = q
  purge (suc n) q = purge n (pop q)

  unfoldable pub purge_released : Study D cq → Study D cq
  unfolding purge
  purge_released s = record s {
    release_queue = purge (length (contents s.release_queue)) s.release_queue;
  }

  -- ReleaseFitResult
  unfoldable release_fit_result : Container D → Study D cq → Study D cq
  release_fit_result c s = record s { release_queue = push c s.release_queue }

  module _ (zero_ : D) (q : Numbers D) (config : Config) (open_file : FileTree → Opened D) where
    -- The container that is pushed for an entry.
    abbrev pub container : Entry D → RooFitResult D → Container D
    container e f = record {
      fit_result1 = f;
      fit_result2 = e.fit_result2;
      times = record {
        cpu1 = or_default e.time_cpu1 zero_;
        real1 = or_default e.time_real1 zero_;
        cpu2 = or_default e.time_cpu2 zero_;
        real2 = or_default e.time_real2 zero_;
      };
      seed = or_zero e.entry_seed;
      run_id = or_zero e.entry_run_id;
    }

    -- An entry whose result is okay is pushed; the results that were released are deleted.
    unfoldable pub store_entry : Entry D → RooFitResult D → Bool → Study D cq → Study D cq
    unfolding purge_released
    store_entry e f okay s =
        purge_released
          (if okay then record s { read_queue = push (container e f) s.read_queue } else s)

    -- The body of the loop over the entries of a tree: the quality of a result, the result, and the
    -- rest of the loop.
    unfoldable pub read_checked :
        Entry D
        → RooFitResult D
        → Option Bool
        → ℕ
        → Study D cq
        → (ℕ → Study D cq → Progress (Study D cq))
        → Progress (Study D cq)
    unfolding store_entry
    read_checked e f none stored s k = lost_pointer
    read_checked e f (some okay) stored s k =
        let stored' = if okay then suc stored else stored in
        let s' = store_entry e f okay s in
        if limit_reached config.num_toys_read stored' then broke_off s' else k stored' s'

    unfoldable pub read_found :
        Entry D
        → Option (RooFitResult D)
        → ℕ
        → Study D cq
        → (ℕ → Study D cq → Progress (Study D cq))
        → Progress (Study D cq)
    unfolding read_checked fit_result_okay
    read_found e none stored s k = stuck
    read_found e (some f) stored s k =
        read_checked e f (fit_result_okay q config.min_acceptable_cov_matrix_quality f) stored s k

    -- The loop over the entries of a tree.
    unfoldable pub read_entries : List (Entry D) → ℕ → Study D cq → Progress (Study D cq)
    unfolding read_found
    read_entries [] stored s = went_on stored s
    read_entries (e ∷ es) stored s = read_found e e.fit_result stored s (read_entries es)

    -- The second test of the limit, after the loop over the entries.
    unfoldable pub after_entries : Progress (Study D cq) → Progress (Study D cq)
    after_entries (went_on stored s) =
        if limit_reached config.num_toys_read stored then broke_off s else went_on stored s
    after_entries p = p

    unfoldable pub read_file : FileTree → Opened D → ℕ → Study D cq → Progress (Study D cq)
    unfolding read_entries after_entries
    read_file f unreadable stored s = went_on stored s
    read_file f no_tree stored s = went_on stored s
    read_file f (no_branch false) stored s = went_on stored s
    read_file f (no_branch true) stored s =
        went_on stored (record s { results_files_easyfit = s.results_files_easyfit ++ (f ∷ []) })
    read_file f (entries es) stored s = after_entries (read_entries es stored s)

    abbrev pub go_on :
        Progress (Study D cq) → (ℕ → Study D cq → Progress (Study D cq)) → Progress (Study D cq)
    go_on (went_on stored s) k = k stored s
    go_on (broke_off s) k = broke_off s
    go_on lost_pointer k = lost_pointer
    go_on stuck k = stuck

    -- The loop over the files.
    unfoldable pub read_files : List FileTree → ℕ → Study D cq → Progress (Study D cq)
    unfolding read_file
    read_files [] stored s = went_on stored s
    read_files (f ∷ fs) stored s = go_on (read_file f (open_file f) stored s) (read_files fs)

    -- The end of the worker.
    unfoldable pub end_reading : Study D cq → Study D cq
    end_reading s = record s {
      read_queue = disable_queue s.read_queue;
      reading_fit_results = false;
    }

    abbrev pub finish_reading : Progress (Study D cq) → Outcome (Study D cq)
    finish_reading (went_on stored s) = returned (end_reading s)
    finish_reading (broke_off s) = returned (end_reading s)
    finish_reading lost_pointer = null_pointer
    finish_reading stuck = hangs

    unfoldable pub read_with :
        List FileTree → List (Container D) → Study D cq → Outcome (Study D cq)
    unfolding read_files end_reading
    read_with [] results s = cannot_read_fit_result
    read_with (f ∷ fs) (r ∷ rs) s = cannot_read_fit_result
    read_with (f ∷ fs) [] s = finish_reading (read_files (f ∷ fs) 0 s)

    -- ReadFitResultWorker
    unfoldable pub read_fit_result_worker : Study D cq → Outcome (Study D cq)
    unfolding read_with
    read_fit_result_worker s = read_with config.read_results_filename_treename s.fit_results s

    -- ReadFitResults, after FinishFitResultSaving.
    unfoldable read_fit_results : Study D cq → Outcome (Study D cq)
    unfolding read_fit_result_worker
    read_fit_results s = read_fit_result_worker (record s { reading_fit_results = true })
