-- ===== src/Toy/Study/Nearer.antt =====
-- The steps of the worker while FinishFitResultSaving waits.
use doo_fit.Base.{
  ℕ, ◌+◌, ◌*◌, ◌<◌, Bool, true, false, ◌||◌, not, Option, List, [], ◌∷◌, ◌++◌, length,
  if◌then◌else◌, Bool-cases, inl, inr, ◌⊎◌, ◌≡◌, ◌≢◌, refl, arith,
}
use doo_fit.Toy.Study.SaveBatch.{FitResultContainer, Tree}
use doo_fit.Toy.Study.Batches.{Uniform, save_batch-Stores}
use doo_fit.Toy.Study.Saving.{
  ConcurrentQueue, QueueLaws, free, Main, joining, Worker, top, waiting, draining, saving, locked,
  done, crashed, exited, System, is_empty, goes_on, Step, refuse, store, throw_unnamed, push_result,
  lock, finish, disable, unlock, join, leave, wait, collect, take, give_up, drain, drained,
  lock_worker, file_locked, save, other_saves, fail, abort, is_other,
}
use doo_fit.Toy.Study.Conserved.{Inv}
use doo_fit.Toy.Study.Stored.{FileInv}

-- How far the worker is from its end, by where it stands and whether anything is queued.
abbrev stage : Worker → Bool → ℕ
stage top more = if more then 9 else 1
stage waiting more = 8
stage draining more = if more then 7 else 2
stage saving more = 6
stage locked more = 5
stage _ more = 0

is_empty-false : {A : Type 0} (xs : List A) → xs ≢ [] → is_empty xs ≡ false
is_empty-false [] h = absurd (h refl)
is_empty-false (x ∷ xs) h = refl

List-cases : {A : Type 0} (xs : List A) → (xs ≡ []) ⊎ ((x : A) × (rest : List A) × (xs ≡ x ∷ rest))
List-cases [] = inl refl
List-cases (x ∷ xs) = inr (x, xs, refl)

-- The worker has not ended the program.
abbrev pub is_alive : Worker → Bool
is_alive crashed = false
is_alive exited = false
is_alive _ = true

module _ {F T : Type 0} (cq : ConcurrentQueue (FitResultContainer F T)) where
  open cq use {contents, is_disabled}

  abbrev pub queued : System cq → Bool
  queued s = not (is_empty (contents s.queue)) || not (is_empty s.saver_queue)

  abbrev is_joining : Main (FitResultContainer F T) → ℕ
  is_joining joining = 1
  is_joining _ = 0

  -- Falls with every step of the worker but a new try for the file.
  pub distance : System cq → ℕ
  distance s =
      11 * length (contents s.queue)
      + (if is_empty s.saver_queue then 0 else 10)
      + stage s.worker (queued s)
      + is_joining s.main

  module _ (laws : QueueLaws cq) where
    open laws use {contents-pop}

    -- While the main thread waits in `join()`, a step of this program brings the worker nearer to its end, or the
    -- worker did not get the file and will try again with what it has to save.
    Step-distance :
        {named : Bool} {s t : System cq} (st : Step cq named s t)
        → is_other cq st ≡ false
        → Inv cq s
        → s.main ≡ joining
        → ((s.worker ≡ locked) × (t.worker ≡ top)) ⊎ (distance t < distance s)
    unfolding distance
    Step-distance (refuse s i a) mine v m = cc
    Step-distance (store s c i a) mine v m = cc
    Step-distance (throw_unnamed s c i n) mine v m = cc
    Step-distance (push_result s c i n) mine v m = cc
    Step-distance (lock s i f) mine v m = cc
    Step-distance (finish s i a) mine v m = cc
    Step-distance (disable s i) mine v m = cc
    Step-distance (unlock s i) mine v m = cc
    Step-distance (join s i w) mine v m = inr (ground arith)
    Step-distance (leave s w g) mine v m = inr (ground arith)
    Step-distance (wait s w g e) mine v m = inr (ground (arith, v.phase))
    Step-distance (collect s w e) mine v m = inr (ground (arith, is_empty-false s.saver_queue e))
    Step-distance (take s c cs w e) mine v m = inr (ground (arith, contents-pop c cs s.queue))
    Step-distance (give_up s w e d) mine v m = inr (ground arith)
    Step-distance (drain s c cs w e) mine v m = inr (ground (arith, contents-pop c cs s.queue))
    Step-distance (drained s w e) mine v m = inr (ground arith)
    Step-distance (lock_worker s w f) mine v m = inr (ground arith)
    Step-distance (file_locked s w) mine v m = inl (w, refl)
    Step-distance (save s file aborted w e) mine v m = inr (ground (arith, v.loaded))
    Step-distance (other_saves s file cs e) mine v m = cc
    Step-distance (fail s w) mine v m = inr (ground arith)
    Step-distance (abort s w) mine v m = inr (ground arith)

    -- The file is there to be written.
    abbrev Savable : Bool → Option (Tree F T) → System cq → Type 0
    Savable b file s = Uniform b s.saver_queue × FileInv cq b file s

    abbrev pub Nearer : Bool → System cq → Type 0
    Nearer named s =
        (t : System cq) × (st : Step cq named s t) × (is_other cq st ≡ false)
        × (is_alive t.worker ≡ true)
        × (distance t < distance s)

    nearer :
        {named : Bool} {s t : System cq} (st : Step cq named s t)
        → is_other cq st ≡ false
        → Inv cq s
        → s.main ≡ joining
        → s.worker ≢ locked
        → is_alive t.worker ≡ true
        → Nearer named s
    nearer {t} st mine v m other alive = elim (Step-distance st mine v m) [
      | inl r ↦ absurd (other r.0)
      | inr d ↦ (t, st, mine, alive, d)
    ]

    Nearer-top :
        (named : Bool) (s : System cq)
        → Inv cq s
        → s.main ≡ joining
        → s.worker ≡ top
        → Nearer named s
    Nearer-top named s v m w = elim (List-cases s.saver_queue) [
      | inl e ↦ elim (Bool-cases (goes_on cq s)) [
        | inl g ↦ nearer (wait s w g e) refl v m (λ l. cc) (ground arith)
        | inr g ↦ nearer (leave s w g) refl v m (λ l. cc) (ground arith)
      ]
      | inr (c, cs, e) ↦ nearer (collect s w (λ n. cc)) refl v m (λ l. cc) (ground arith)
    ]

    Nearer-waiting :
        (named : Bool) (s : System cq)
        → Inv cq s
        → s.main ≡ joining
        → s.worker ≡ waiting
        → Nearer named s
    Nearer-waiting named s v m w = elim (List-cases (contents s.queue)) [
      | inl e ↦ nearer (give_up s w e (ground (arith, v.closed))) refl v m (λ l. cc) (ground arith)
      | inr (c, cs, e) ↦ nearer (take s c cs w e) refl v m (λ l. cc) (ground arith)
    ]

    Nearer-draining :
        (named : Bool) (s : System cq)
        → Inv cq s
        → s.main ≡ joining
        → s.worker ≡ draining
        → Nearer named s
    Nearer-draining named s v m w = elim (List-cases (contents s.queue)) [
      | inl e ↦ nearer (drained s w e) refl v m (λ l. cc) (ground arith)
      | inr (c, cs, e) ↦ nearer (drain s c cs w e) refl v m (λ l. cc) (ground arith)
    ]

    distance-save :
        (s : System cq) (file : Option (Tree F T))
        → Inv cq s
        → s.main ≡ joining
        → s.worker ≡ locked
        → distance (record s {
          worker = top;
          mutex = free;
          file = file;
          saver_queue = [];
          written = s.written ++ s.saver_queue;
        })
          < distance s
    unfolding distance
    distance-save s file v m w = ground (arith, v.loaded)

    -- Some step brings a living worker nearer to its end.
    pub Nearer-step :
        (named b : Bool) (file : Option (Tree F T)) (w : Worker) (s : System cq)
        → s.worker ≡ w
        → is_alive w ≡ true
        → Inv cq s
        → Savable b file s
        → s.main ≡ joining
        → Nearer named s
    Nearer-step named b file top s e a v f m = Nearer-top named s v m e
    Nearer-step named b file waiting s e a v f m = Nearer-waiting named s v m e
    Nearer-step named b file draining s e a v f m = Nearer-draining named s v m e
    Nearer-step named b file saving s e a v f m =
        nearer (lock_worker s e (ground (arith, v.owned))) refl v m (λ l. cc) (ground arith)
    Nearer-step named b file locked s e a v f m =
        let (new, g, o, r) = save_batch-Stores b s.file s.saver_queue f.1.own f.0 in
        (_, save s new false e g, refl, refl, distance-save s new v m e)
    Nearer-step named b file done s e a v f m =
        nearer (join s m e) refl v m (λ l. cc) (ground arith)
    Nearer-step named b file crashed s e a v f m = cc
    Nearer-step named b file exited s e a v f m = cc
