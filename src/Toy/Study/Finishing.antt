-- ===== src/Toy/Study/Finishing.antt =====
-- FinishFitResultSaving and the end of the worker.
use doo_fit.Base.{
  ℕ, zero, suc, ◌<◌, Bool, true, false, Option, List, inl, inr, ◌⊎◌, ◌≡◌, refl, sym, ◌∙◌, subst,
  arith,
}
use doo_fit.Toy.Study.SaveBatch.{FitResultContainer, Tree}
use doo_fit.Toy.Study.Batches.{Uniform, IsOwn}
use doo_fit.Toy.Study.Saving.{
  ConcurrentQueue, QueueLaws, idle, joining, System, Step, refuse, store, throw_unnamed,
  push_result, lock, finish, disable, unlock, join, leave, Reach, later, other_saves, is_other,
}
use doo_fit.Toy.Study.Conserved.{Inv, Reach-Inv}
use doo_fit.Toy.Study.Stored.{written_all, Reach-FileInv, Inv-Uniform-saver}
use doo_fit.Toy.Study.Nearer.{is_alive, distance, Nearer-step}

module _ {F T : Type 0} (cq : ConcurrentQueue (FitResultContainer F T)) where
  module _ (laws : QueueLaws cq) where
    joining_off : {s : System cq} → Inv cq s → s.main ≡ joining → s.accepting ≡ false
    joining_off v m = ground (arith, v.phase)

    Step-joining :
        {named : Bool} {s t : System cq} (st : Step cq named s t)
        → is_other cq st ≡ false
        → s.main ≡ joining
        → (t.accepted ≡ s.accepted)
          × (t.others ≡ s.others)
          × (t.accepting ≡ s.accepting)
          × ((t.main ≡ joining) ⊎ (t.main ≡ idle))
    Step-joining (refuse s i a) mine m = cc
    Step-joining (store s c i a) mine m = cc
    Step-joining (throw_unnamed s c i n) mine m = cc
    Step-joining (push_result s c i n) mine m = cc
    Step-joining (lock s i f) mine m = cc
    Step-joining (finish s i a) mine m = cc
    Step-joining (disable s i) mine m = cc
    Step-joining (unlock s i) mine m = cc
    Step-joining (join s i w) mine m = (refl, refl, refl, inr refl)
    Step-joining (leave s w g) mine m = (refl, refl, refl, inl m)
    Step-joining (other_saves s file cs e) mine m = cc
    Step-joining _ mine m = (refl, refl, refl, inl m)

    -- A run of the two threads from a state.
    pub data Runs (named : Bool) (s : System cq) : System cq → Type 0 where
      now : Runs named s s
      next : {t u : System cq} → Runs named s t → Step cq named t u → Runs named s u

    -- FinishFitResultSaving has returned, with the same containers accepted, and all of them saved.
    abbrev pub Returned : List (FitResultContainer F T) → System cq → Type 0
    Returned cs s = (s.main ≡ idle) × (s.accepting ≡ false) × (s.accepted ≡ cs) × (s.written ≡ cs)

    run_on :
        (n : ℕ) (named b : Bool) (file : Option (Tree F T)) (s t : System cq)
        → distance cq t < n
        → Runs named s t
        → Reach cq named file t
        → is_alive t.worker ≡ true
        → IsOwn b file
        → Uniform b t.accepted
        → Uniform b t.others
        → t.main ≡ joining
        → (u : System cq) × Runs named s u × Returned t.accepted u
    run_on zero named b file s t d runs r alive o u ou m = absurd (omega arith)
    run_on (suc n) named b file s t d runs r alive o u ou m =
        let v = Reach-Inv cq laws r in
        let (q, st, mine, alive', d') =
          Nearer-step cq laws named b file t.worker t refl alive v
            (Inv-Uniform-saver cq b v u, Reach-FileInv cq laws b r o u ou) m in
        let (same, others, acc, then_) = Step-joining st mine m in
        let off : q.accepting ≡ false = acc ∙ joining_off v m in
        elim then_ [
          | inl j ↦
              let (x, rx, (x1, x2, x3, x4)) =
                run_on n named b file s q (omega arith) (next runs st) (later r st) alive' o
                  (subst (Uniform b) (sym same) u) (subst (Uniform b) (sym others) ou) j in
              (x, rx, (x1, x2, x3 ∙ same, x4 ∙ same))
          | inr i ↦ (
            q,
            next runs st,
            (i, off, same, written_all cq laws q (Reach-Inv cq laws (later r st)) i off ∙ same),
          )
        ]

    -- From every reachable state in which the main thread waits in FinishFitResultSaving and the worker
    -- has not ended the program, the worker can go on, get the file and save, and FinishFitResultSaving
    -- returns with the same containers accepted and all of them saved, in order. The tree is new or of
    -- this program, other processes that save into it run this program too, and either all containers,
    -- theirs included, have a second result or none has.
    pub joining-Returned :
        {named : Bool} {file : Option (Tree F T)} {s : System cq} (b : Bool)
        → Reach cq named file s
        → s.main ≡ joining
        → is_alive s.worker ≡ true
        → IsOwn b file
        → Uniform b s.accepted
        → Uniform b s.others
        → (t : System cq) × Runs named s t × Returned s.accepted t
    joining-Returned {named} {file} {s} b r m alive o u ou =
        run_on (suc (distance cq s)) named b file s s (omega arith) now r alive o u ou m
