-- ===== src/Toy/Study/Saving.antt =====
-- Saving of fit results: the constructor, StoreFitResult and FinishFitResultSaving on the main
-- thread, and SaveFitResultWorker on its own, as steps that interleave. The queue between them is a
-- parameter. A signal, a locked file, a file that cannot be opened and another process that saves into
-- the file are steps that may happen.
use doo_fit.Base.{
  Bool, true, false, ◌||◌, not, if◌then◌else◌, Option, List, [], ◌∷◌, ◌++◌, ◌≡◌, ◌≢◌,
}
use doo_fit.Toy.Study.SaveBatch.{FitResultContainer, Tree, saved, save_batch}

-- doocore's concurrent_queue.
pub record ConcurrentQueue (A : Type 0) : Type 1 where
  pub Queue : Type 0
  pub contents : Queue → List A
  pub is_disabled : Queue → Bool
  pub fresh : Queue
  pub push : A → Queue → Queue
  pub pop : Queue → Queue
  pub disable_queue : Queue → Queue

-- What it documents: first in, first out, and disabling keeps what is queued.
pub record QueueLaws {A : Type 0} (cq : ConcurrentQueue A) : Type 0 where
  pub contents-fresh : cq.contents cq.fresh ≡ []
  pub contents-push : (a : A) (q : cq.Queue) → cq.contents (cq.push a q) ≡ cq.contents q ++ (a ∷ [])
  pub contents-pop :
      (a : A) (rest : List A) (q : cq.Queue)
      → cq.contents q ≡ a ∷ rest
      → cq.contents (cq.pop q) ≡ rest
  pub contents-disable : (q : cq.Queue) → cq.contents (cq.disable_queue q) ≡ cq.contents q
  pub disabled-disable : (q : cq.Queue) → cq.is_disabled (cq.disable_queue q) ≡ true
  pub disabled-push : (a : A) (q : cq.Queue) → cq.is_disabled (cq.push a q) ≡ cq.is_disabled q
  pub disabled-pop : (q : cq.Queue) → cq.is_disabled (cq.pop q) ≡ cq.is_disabled q

-- fitresult_save_worker_mutex_
pub data Mutex : Type 0 where
  free by_main by_worker : Mutex

-- The main thread: between calls; in StoreFitResult before and after the push; in
-- FinishFitResultSaving after `accepting_fit_results_ = false`, after `disable_queue()`, and in
-- `join()`; after ExceptionCannotStoreFitResult.
pub data Main (C : Type 0) : Type 0 where
  idle : Main C
  storing : C → Main C
  pushed : Main C
  finishing : Main C
  disabled : Main C
  joining : Main C
  threw : Main C

-- The worker: at the test of its loop; in `wait_and_pop`; in the loop that empties the queue; before
-- and after it has the mutex; returned; ended by an exception; ended by `exit(1)`.
pub data Worker : Type 0 where
  top waiting draining saving locked done crashed exited : Worker

module _ {A : Type 0} where
  abbrev pub is_empty : List A → Bool
  is_empty [] = true
  is_empty (x ∷ xs) = false

module _ {F T : Type 0} (cq : ConcurrentQueue (FitResultContainer F T)) where
  open cq use {Queue, contents, is_disabled, fresh, push, pop, disable_queue}

  -- `accepted` and `written` are the containers that StoreFitResult has taken and that the worker has
  -- saved so far, `others` those that other processes of this program have saved into the same tree.
  pub record System : Type 0 where
    pub accepting : Bool
    pub queue : Queue
    pub mutex : Mutex
    pub main : Main (FitResultContainer F T)
    pub worker : Worker
    pub saver_queue : List (FitResultContainer F T)
    pub file : Option (Tree F T)
    pub accepted : List (FitResultContainer F T)
    pub written : List (FitResultContainer F T)
    pub others : List (FitResultContainer F T)

  -- After the constructor, which locks the mutex before it starts the worker.
  abbrev pub init : Option (Tree F T) → System
  init file = record {
    accepting = true;
    queue = fresh;
    mutex = by_main;
    main = idle;
    worker = top;
    saver_queue = [];
    file = file;
    accepted = [];
    written = [];
    others = [];
  }

  -- The test of the loop of the worker.
  abbrev pub goes_on : System → Bool
  goes_on s = s.accepting || (not (is_empty (contents s.queue)) || not (is_empty s.saver_queue))

  -- `named`: a file and a tree name to store into are configured.
  pub data Step (named : Bool) : System → System → Type 0 where
    -- StoreFitResult
    refuse : (s : System) → s.main ≡ idle → s.accepting ≡ false → Step named s s
    store :
        (s : System) (c : FitResultContainer F T)
        → s.main ≡ idle
        → s.accepting ≡ true
        → Step named s (record s { main = storing c; mutex = free })
    throw_unnamed :
        (s : System) (c : FitResultContainer F T)
        → s.main ≡ storing c
        → named ≡ false
        → Step named s (record s { main = threw })
    push_result :
        (s : System) (c : FitResultContainer F T)
        → s.main ≡ storing c
        → named ≡ true
        → Step named s
            (record s { main = pushed; queue = push c s.queue; accepted = s.accepted ++ (c ∷ []) })
    lock :
        (s : System)
        → s.main ≡ pushed
        → s.mutex ≡ free
        → Step named s (record s { main = idle; mutex = by_main })
    -- FinishFitResultSaving
    finish :
        (s : System)
        → s.main ≡ idle
        → s.accepting ≡ true
        → Step named s (record s { main = finishing; accepting = false })
    disable :
        (s : System)
        → s.main ≡ finishing
        → Step named s (record s { main = disabled; queue = disable_queue s.queue })
    unlock :
        (s : System) → s.main ≡ disabled → Step named s (record s { main = joining; mutex = free })
    join :
        (s : System) → s.main ≡ joining → s.worker ≡ done → Step named s (record s { main = idle })
    -- SaveFitResultWorker
    leave :
        (s : System)
        → s.worker ≡ top
        → goes_on s ≡ false
        → Step named s (record s { worker = done })
    wait :
        (s : System)
        → s.worker ≡ top
        → goes_on s ≡ true
        → s.saver_queue ≡ []
        → Step named s (record s { worker = waiting })
    collect :
        (s : System)
        → s.worker ≡ top
        → s.saver_queue ≢ []
        → Step named s (record s { worker = draining })
    take :
        (s : System) (c : FitResultContainer F T) (cs : List (FitResultContainer F T))
        → s.worker ≡ waiting
        → contents s.queue ≡ c ∷ cs
        → Step named s (record s {
          worker = draining;
          queue = pop s.queue;
          saver_queue = s.saver_queue ++ (c ∷ []);
        })
    give_up :
        (s : System)
        → s.worker ≡ waiting
        → contents s.queue ≡ []
        → is_disabled s.queue ≡ true
        → Step named s (record s { worker = draining })
    drain :
        (s : System) (c : FitResultContainer F T) (cs : List (FitResultContainer F T))
        → s.worker ≡ draining
        → contents s.queue ≡ c ∷ cs
        → Step named s (record s { queue = pop s.queue; saver_queue = s.saver_queue ++ (c ∷ []) })
    drained :
        (s : System)
        → s.worker ≡ draining
        → contents s.queue ≡ []
        → Step named s (record s { worker = if is_empty s.saver_queue then top else saving })
    lock_worker :
        (s : System)
        → s.worker ≡ saving
        → s.mutex ≡ free
        → Step named s (record s { worker = locked; mutex = by_worker })
    file_locked :
        (s : System) → s.worker ≡ locked → Step named s (record s { worker = top; mutex = free })
    save :
        (s : System) (file : Option (Tree F T)) (aborted : Bool)
        → s.worker ≡ locked
        → save_batch s.file s.saver_queue ≡ saved file
        → Step named s (record s {
          worker = if aborted then exited else top;
          mutex = if aborted then by_worker else free;
          file = file;
          saver_queue = [];
          written = s.written ++ s.saver_queue;
        })
    -- Another process has the file and saves a batch of its own.
    other_saves :
        (s : System) (file : Option (Tree F T)) (cs : List (FitResultContainer F T))
        → save_batch s.file cs ≡ saved file
        → Step named s (record s { file = file; others = s.others ++ cs })
    fail : (s : System) → s.worker ≡ locked → Step named s (record s { worker = crashed })
    abort : (s : System) → s.worker ≡ locked → Step named s (record s { worker = exited })

  abbrev pub is_other : {named : Bool} {s t : System} → Step named s t → Bool
  is_other (other_saves s file cs e) = true
  is_other _ = false

  pub data Reach (named : Bool) (file : Option (Tree F T)) : System → Type 0 where
    start : Reach named file (init file)
    later : {s t : System} → Reach named file s → Step named s t → Reach named file t
