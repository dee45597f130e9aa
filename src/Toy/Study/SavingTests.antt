-- ===== src/Toy/Study/SavingTests.antt =====
-- A run of both threads, and the theorems on saving at concrete states.
use doo_fit.Base.{
  ℕ, pos, Bool, true, false, ◌&&◌, not, Option, none, some, List, [], ◌∷◌, ◌++◌, map, ◌≡◌, refl,
}
use doo_fit.Toy.Study.SaveBatch.{
  FitResultContainer, Row, saved, cannot_store, new_tree, fill_all, save_batch,
}
use doo_fit.Toy.Study.Batches.{full, rows_of}
use doo_fit.Toy.Study.Saving.{
  ConcurrentQueue, QueueLaws, joining, System, store, push_result, lock, finish, disable, unlock,
  join, leave, wait, take, drain, drained, lock_worker, save, other_saves, Reach, start, later,
}
use doo_fit.Toy.Study.Conserved.{holds, has_lock, is_idle, is_done, Reach-safe}
use doo_fit.Toy.Study.Stored.{Interleaved, Reach-stored}
use doo_fit.Toy.Study.Finishing.{Runs, Returned, joining-Returned}

abbrev Container : Type 0
Container = FitResultContainer ℕ ℕ

abbrev tail : List Container → List Container
tail [] = []
tail (x ∷ xs) = xs

-- A queue as the list of what it holds, and whether it is disabled.
abbrev queues : ConcurrentQueue Container
queues = record {
  Queue = List Container × Bool;
  contents = λ q. q.0;
  is_disabled = λ q. q.1;
  fresh = ([], false);
  push = λ c q. (q.0 ++ (c ∷ []), q.1);
  pop = λ q. (tail q.0, q.1);
  disable_queue = λ q. (q.0, true);
}

abbrev laws : QueueLaws queues
laws = record {
  contents-fresh = refl;
  contents-push = λ a q. refl;
  contents-pop = λ a rest q e. rw e refl;
  contents-disable = λ q. refl;
  disabled-disable = λ q. refl;
  disabled-push = λ a q. refl;
  disabled-pop = λ q. refl;
}

abbrev result : ℕ → Option ℕ → Container
result n second = record {
  fit_result1 = n;
  fit_result2 = second;
  times = 5;
  seed = pos n;
  run_id = pos 0;
}

-- Two results are stored; the worker has the first of them.
abbrev two_stored : (s : System queues) × Reach queues true none s
two_stored = (
  _,
  later
      (later
        (later
          (later
            (later
              (later
                (later (later start (store _ (result 1 none) refl refl))
                  (push_result _ (result 1 none) refl refl))
                (wait _ refl refl refl))
              (take _ (result 1 none) [] refl refl))
            (lock _ refl refl))
          (store _ (result 2 none) refl refl))
        (push_result _ (result 2 none) refl refl))
      (lock _ refl refl),
)

-- The main thread waits in FinishFitResultSaving.
abbrev waits : (s : System queues) × Reach queues true none s
waits =
    (_, later (later (later two_stored.1 (finish _ refl refl)) (disable _ refl)) (unlock _ refl))

waits-joining : waits.0.main ≡ joining
waits-joining = refl

Reach-safe_example :
    (waits.0.written ++ (waits.0.saver_queue ++ waits.0.queue.0) ≡ waits.0.accepted)
    × ((holds waits.0.main waits.0.accepting && has_lock waits.0.worker) ≡ false)
    × ((is_idle waits.0.main && (not waits.0.accepting && not (is_done waits.0.worker))) ≡ false)
Reach-safe_example = Reach-safe queues laws waits.1

joining-Returned_example :
    (t : System queues) × Runs queues laws true waits.0 t
    × Returned queues laws (result 1 none ∷ result 2 none ∷ []) t
joining-Returned_example =
    joining-Returned queues laws false waits.1 refl refl tt (refl, (refl, tt)) tt

-- The second result of the second container is lost.
abbrev drop_rows : List (Row ℕ ℕ)
drop_rows = full (result 1 none) ∷ full (result 2 none) ∷ []

drops :
    save_batch none (result 1 none ∷ result 2 (some 7) ∷ [])
    ≡ saved (some (record (new_tree false) { rows = drop_rows }))
unfolding save_batch fill_all
drops = refl

-- A tree without the second branch takes no second result.
refuses : save_batch (some (new_tree false)) (result 2 (some 7) ∷ []) ≡ cannot_store
unfolding save_batch
refuses = refl

saves :
    save_batch none (result 1 none ∷ result 2 none ∷ [])
    ≡ saved (some (record (new_tree false) { rows = drop_rows }))
unfolding save_batch fill_all
saves = refl

-- The worker takes the second result too, saves both and is done.
abbrev finished : (s : System queues) × Reach queues true none s
finished = (
  _,
  later
      (later
        (later
          (later
            (later (later waits.1 (drain _ (result 2 none) [] refl refl)) (drained _ refl refl))
            (lock_worker _ refl refl))
          (save _ (some (record (new_tree false) { rows = drop_rows })) false refl saves))
        (leave _ refl refl))
      (join _ refl refl),
)

-- Another process saves a result into the same tree.
abbrev shared_rows : List (Row ℕ ℕ)
shared_rows = full (result 1 none) ∷ full (result 2 none) ∷ full (result 3 none) ∷ []

adds :
    save_batch (some (record (new_tree false) { rows = drop_rows })) (result 3 none ∷ [])
    ≡ saved (some (record (new_tree false) { rows = shared_rows }))
unfolding save_batch fill_all
adds = refl

abbrev shared : (s : System queues) × Reach queues true none s
shared = (
  _,
  later finished.1 (
      other_saves _ (some (record (new_tree false) { rows = shared_rows })) (result 3 none ∷ [])
        adds),
)

Reach-stored_example :
    (all : List Container) × (rows_of shared.0.file ≡ map full all)
    × Interleaved (result 1 none ∷ result 2 none ∷ []) (result 3 none ∷ []) all
Reach-stored_example =
    Reach-stored queues laws false shared.1 refl refl tt (refl, (refl, tt)) (refl, tt)
