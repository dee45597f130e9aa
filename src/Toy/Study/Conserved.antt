-- ===== src/Toy/Study/Conserved.antt =====
-- The fit results on their way from StoreFitResult to the file.
use mathlib.Core.List.{append_assoc}
use doo_fit.Base.{Bool, true, false, ◌&&◌, not, Option, List, [], ◌∷◌, ◌++◌, ◌≡◌, refl, arith}
use doo_fit.Toy.Study.SaveBatch.{FitResultContainer, Tree}
use doo_fit.Toy.Study.Saving.{
  ConcurrentQueue, QueueLaws, Mutex, free, by_main, by_worker, Main, idle, storing, pushed,
  finishing, disabled, joining, threw, Worker, saving, locked, done, crashed, exited, System, init,
  is_empty, goes_on, Step, refuse, store, throw_unnamed, push_result, lock, finish, disable, unlock,
  join, leave, wait, collect, take, give_up, drain, drained, lock_worker, file_locked, save,
  other_saves, fail, abort, Reach, start, later,
}

-- The main thread holds the mutex except while it stores a result or waits in `join()`.
module _ {C : Type 0} where
  abbrev pub holds : Main C → Bool → Bool
  holds idle accepting = accepting
  holds (storing c) accepting = false
  holds pushed accepting = false
  holds finishing accepting = true
  holds disabled accepting = true
  holds joining accepting = false
  holds threw accepting = false

-- The worker has the mutex, or has ended the program while it had it.
abbrev pub has_lock : Worker → Bool
has_lock locked = true
has_lock crashed = true
has_lock exited = true
has_lock _ = false

abbrev pub is_done : Worker → Bool
is_done done = true
is_done _ = false

abbrev is_saving : Worker → Bool
is_saving saving = true
is_saving locked = true
is_saving _ = false

abbrev owner : Bool → Bool → Mutex
owner true w = by_main
owner false true = by_worker
owner false false = free

-- What the main thread does fits whether results are accepted.
module _ {C : Type 0} where
  abbrev fits_phase : Main C → Bool → Bool
  fits_phase idle accepting = true
  fits_phase (storing c) accepting = accepting
  fits_phase pushed accepting = accepting
  fits_phase finishing accepting = not accepting
  fits_phase disabled accepting = not accepting
  fits_phase joining accepting = not accepting
  fits_phase threw accepting = accepting

module _ {C : Type 0} where
  abbrev has_disabled : Main C → Bool
  has_disabled disabled = true
  has_disabled joining = true
  has_disabled _ = false

module _ {C : Type 0} where
  abbrev pub is_idle : Main C → Bool
  is_idle idle = true
  is_idle _ = false

module _ {C : Type 0} where
  snoc_accepted :
      (written saver queue accepted : List C) (c : C)
      → written ++ (saver ++ queue) ≡ accepted
      → written ++ (saver ++ (queue ++ (c ∷ []))) ≡ accepted ++ (c ∷ [])
  snoc_accepted written saver queue accepted c e =
      rw (← e, append_assoc written (saver ++ queue) (c ∷ []), append_assoc saver queue (c ∷ []))
        refl

module _ {F T : Type 0} (cq : ConcurrentQueue (FitResultContainer F T)) where
  open cq use {contents, is_disabled}

  pub record Inv (s : System cq) : Type 0 where
    pub conserved : s.written ++ (s.saver_queue ++ contents s.queue) ≡ s.accepted
    pub owned : s.mutex ≡ owner (holds s.main s.accepting) (has_lock s.worker)
    pub apart : (holds s.main s.accepting && has_lock s.worker) ≡ false
    pub phase : fits_phase s.main s.accepting ≡ true
    pub closed : (has_disabled s.main && not (is_disabled s.queue)) ≡ false
    pub quiet : (is_done s.worker && goes_on cq s) ≡ false
    pub loaded : (is_saving s.worker && is_empty s.saver_queue) ≡ false
    pub returned : (is_idle s.main && (not s.accepting && not (is_done s.worker))) ≡ false

  module _ (laws : QueueLaws cq) where
    open laws use {
      contents-fresh, contents-push, contents-pop, contents-disable, disabled-disable,
      disabled-push, disabled-pop,
    }

    Inv-init : (file : Option (Tree F T)) → Inv (init cq file)
    Inv-init file = record {
      conserved = contents-fresh;
      owned = refl;
      apart = refl;
      phase = refl;
      closed = refl;
      quiet = refl;
      loaded = refl;
      returned = refl;
    }

    -- Every step keeps the invariant.
    Step-Inv : {named : Bool} {s t : System cq} → Step cq named s t → Inv s → Inv t
    Step-Inv (refuse s i a) v = v
    Step-Inv (store s c i a) v = ground arith
    Step-Inv (throw_unnamed s c m n) v = ground arith
    Step-Inv (push_result s c m n) v = ground (
      arith,
      contents-push c s.queue,
      snoc_accepted s.written s.saver_queue (contents s.queue) s.accepted c v.conserved,
      disabled-push c s.queue,
    )
    Step-Inv (lock s m f) v = ground arith
    Step-Inv (finish s m a) v = ground arith
    Step-Inv (disable s m) v = ground (arith, contents-disable s.queue, disabled-disable s.queue)
    Step-Inv (unlock s m) v = ground arith
    Step-Inv (join s m w) v = ground arith
    Step-Inv (leave s w g) v = ground arith
    Step-Inv (wait s w g e) v = ground arith
    Step-Inv (collect s w e) v = ground arith
    Step-Inv (take s c cs w e) v = ground (
      arith,
      contents-pop c cs s.queue,
      append_assoc s.saver_queue (c ∷ []) cs,
      disabled-pop s.queue,
    )
    Step-Inv (give_up s w e d) v = ground arith
    Step-Inv (drain s c cs w e) v = ground (
      arith,
      contents-pop c cs s.queue,
      append_assoc s.saver_queue (c ∷ []) cs,
      disabled-pop s.queue,
    )
    Step-Inv (drained s w e) v = ground arith
    Step-Inv (lock_worker s w f) v = ground arith
    Step-Inv (file_locked s w) v = ground arith
    Step-Inv (save s file aborted w e) v =
        ground (arith, append_assoc s.written s.saver_queue (contents s.queue))
    Step-Inv (other_saves s file cs e) v = ground arith
    Step-Inv (fail s w) v = ground arith
    Step-Inv (abort s w) v = ground arith

    pub Reach-Inv :
        {named : Bool} {file : Option (Tree F T)} {s : System cq} → Reach cq named file s → Inv s
    Reach-Inv {file} start = Inv-init file
    Reach-Inv (later r st) = Step-Inv st (Reach-Inv r)

    -- In every reachable state, the saved containers, those of the worker's queue and those of the
    -- shared queue are the accepted ones in order; the worker never has the mutex while the main
    -- thread holds it; and where FinishFitResultSaving has returned, the worker is done.
    pub Reach-safe :
        {named : Bool} {file : Option (Tree F T)} {s : System cq}
        → Reach cq named file s
        → (s.written ++ (s.saver_queue ++ contents s.queue) ≡ s.accepted)
          × ((holds s.main s.accepting && has_lock s.worker) ≡ false)
          × ((is_idle s.main && (not s.accepting && not (is_done s.worker))) ≡ false)
    Reach-safe r = let v = Reach-Inv r in (v.conserved, v.apart, v.returned)
