-- ===== src/Toy/Study/Taken.antt =====
-- The first loop of EvaluateFitResults and the results of the queue.
use mathlib.Core.List.{Perm, append_assoc, append-nil}
use doo_fit.Base.{ℕ, zero, suc, ◌≤◌, List, [], ◌∷◌, ◌++◌, length, ◌≡◌, refl, sym, ◌∙◌, subst, arith}
use doo_fit.Toy.Study.Saving.{ConcurrentQueue, QueueLaws}
use doo_fit.Toy.Study.Reading.{Container, Study}
use doo_fit.Toy.Study.Evaluation.{get_fit_result, keep_result, take_results}
use doo_fit.Toy.Study.BySeed.{IsOrdered, keyed, insert_all, insert_all-IsOrdered, insert_all-perm}

module _ {D : Type 0} (cq : ConcurrentQueue (Container D)) (laws : QueueLaws cq) where
  open cq use {contents, pop}
  open laws use {contents-pop}

  -- The loop has moved the results of the queue into the members.
  record Moved (cs : List (Container D)) (s t : Study D cq) : Type 0 where
    emptied : contents t.read_queue ≡ []
    results : t.fit_results ≡ s.fit_results ++ cs
    bookkeep : t.fit_results_bookkeep ≡ s.fit_results_bookkeep ++ cs
    by_seed : t.fit_results_by_seed ≡ insert_all cs s.fit_results_by_seed

  abbrev popped : Study D cq → Study D cq
  popped s = record s { read_queue = pop s.read_queue }

  take_results_step :
      (n : ℕ) (c : Container D) (cs : List (Container D)) (s : Study D cq)
      → contents s.read_queue ≡ c ∷ cs
      → take_results cq (suc n) s ≡ take_results cq n (keep_result cq c (popped s))
  unfolding take_results get_fit_result
  take_results_step n c cs s e = ground arith

  take_results_end : (n : ℕ) (s : Study D cq) → contents s.read_queue ≡ [] → take_results cq n s ≡ s
  unfolding take_results get_fit_result
  take_results_end zero s e = refl
  take_results_end (suc n) s e = ground arith

  take_results-Moved :
      (n : ℕ) (cs : List (Container D)) (s : Study D cq)
      → contents s.read_queue ≡ cs
      → length cs ≤ n
      → Moved cs s (take_results cq n s)
  unfolding keep_result
  take_results-Moved n [] s e h = subst (Moved [] s) (sym (take_results_end n s e)) (record {
    emptied = e;
    results = sym (append-nil s.fit_results);
    bookkeep = sym (append-nil s.fit_results_bookkeep);
    by_seed = refl;
  })
  take_results-Moved zero (c ∷ cs) s e h = absurd (omega arith)
  take_results-Moved (suc n) (c ∷ cs) s e h =
      let m =
        take_results-Moved n cs (keep_result cq c (popped s)) (contents-pop c cs s.read_queue e)
          (omega (arith, h)) in
      subst (Moved (c ∷ cs) s) (sym (take_results_step n c cs s e)) (record {
        emptied = m.emptied;
        results = m.results ∙ append_assoc s.fit_results (c ∷ []) cs;
        bookkeep = m.bookkeep ∙ append_assoc s.fit_results_bookkeep (c ∷ []) cs;
        by_seed = m.by_seed;
      })

  -- The results of the queue are in the members, and the multimap is sorted by seed.
  pub record AreTaken (cs : List (Container D)) (s t : Study D cq) : Type 0 where
    pub emptied : contents t.read_queue ≡ []
    pub results : t.fit_results ≡ s.fit_results ++ cs
    pub bookkeep : t.fit_results_bookkeep ≡ s.fit_results_bookkeep ++ cs
    pub ordered : IsOrdered t.fit_results_by_seed
    pub permuted : Perm t.fit_results_by_seed (s.fit_results_by_seed ++ keyed cs)

  -- If the multimap is sorted by seed and the fuel is at least the number of queued results, the first
  -- loop of EvaluateFitResults ends with an empty queue: its results are, in order, at the end of the
  -- vector and of the book-keeping, and the multimap has them too, once each, and is sorted again.
  pub take_results_lem :
      (fuel : ℕ) (s : Study D cq)
      → IsOrdered s.fit_results_by_seed
      → length (contents s.read_queue) ≤ fuel
      → AreTaken (contents s.read_queue) s (take_results cq fuel s)
  take_results_lem fuel s o h =
      let cs = contents s.read_queue in
      let m = take_results-Moved fuel cs s refl h in
      record {
        emptied = m.emptied;
        results = m.results;
        bookkeep = m.bookkeep;
        ordered = subst IsOrdered (sym m.by_seed) (insert_all-IsOrdered cs s.fit_results_by_seed o);
        permuted =
            subst (λ k. Perm k (s.fit_results_by_seed ++ keyed cs)) (sym m.by_seed)
              (insert_all-perm cs s.fit_results_by_seed);
      }
