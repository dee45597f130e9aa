-- ===== src/Toy/Study/Evaluation.antt =====
-- GetFitResult, the first loop of EvaluateFitResults, EmptyResults, and how BuildEvaluationArgSet
-- chooses the results that it evaluates.
use doo_fit.Base.{
  ℕ, zero, suc, ◌+◌, ◌==◌, ltb, Bool, ◌&&◌, not, Option, none, some, List, [], ◌∷◌, ◌++◌, ℤ, ltb_ℤ,
  if◌then◌else◌,
}
use doo_fit.Fitter.EasyFitResult.Convert.{RooFitResult}
use doo_fit.Toy.Study.Saving.{ConcurrentQueue, is_empty}
use doo_fit.Toy.Study.Reading.{Container, Config, Study}

abbrev pub same_int : ℤ → ℤ → Bool
same_int a b = not (ltb_ℤ a b) && not (ltb_ℤ b a)

-- std::multimap<int, FitResultContainer>, in the order of its iterator.
abbrev pub SeedMap : Type 0 → Type 0
SeedMap D = List (ℤ × Container D)

module _ {D : Type 0} where
  -- `insert`: after the elements with an equal key.
  unfoldable pub insert_by_seed : ℤ → Container D → SeedMap D → SeedMap D
  insert_by_seed k c [] = (k, c) ∷ []
  insert_by_seed k c ((j, d) ∷ m) =
      if ltb_ℤ k j then (k, c) ∷ (j, d) ∷ m else (j, d) ∷ insert_by_seed k c m

  -- `count`
  unfoldable pub count_seed : ℤ → SeedMap D → ℕ
  count_seed k [] = 0
  count_seed k ((j, d) ∷ m) = (if same_int j k then 1 else 0) + count_seed k m

  -- The loop from lower_bound to upper_bound: the last result of the seed with another run id.
  unfoldable pub partner :
      (seed run_id : ℤ) → SeedMap D → Option (RooFitResult D) → Option (RooFitResult D)
  partner seed run_id [] found = found
  partner seed run_id ((j, d) ∷ m) found =
      partner seed run_id m
        (if same_int j seed && not (same_int d.run_id run_id) then some d.fit_result1 else found)

  abbrev with_partner :
      RooFitResult D → Option (RooFitResult D) → Option (RooFitResult D × Option (RooFitResult D))
  with_partner f none = none
  with_partner f (some r) = some (f, some r)

  -- The first part of BuildEvaluationArgSet: the result to evaluate and its reference, or none where
  -- it returns an empty set.
  unfoldable pub select :
      Config → SeedMap D → Container D → Option (RooFitResult D × Option (RooFitResult D))
  unfolding count_seed partner
  select config m c =
      if not config.evaluate_reference_toys
      then some (c.fit_result1, none)
      else if ltb 2 (count_seed c.seed m)
      then none
      else if count_seed c.seed m == 1
      then none
      else if not (same_int c.run_id config.reference_toys_id)
      then none
      else with_partner c.fit_result1 (partner c.seed c.run_id m none)

module _ {D : Type 0} where
  module _ (cq : ConcurrentQueue (Container D)) where
    open cq use {contents, pop}

    -- GetFitResult: none for null pointers.
    abbrev front : List (Container D) → Option (Container D)
    front [] = none
    front (c ∷ cs) = some c

    unfoldable pub get_fit_result : Study D cq → Option (Container D) × Study D cq
    get_fit_result s = (
      front (contents s.read_queue),
      if is_empty (contents s.read_queue) then s else record s { read_queue = pop s.read_queue },
    )

    -- The body of the first loop of EvaluateFitResults.
    unfoldable pub keep_result : Container D → Study D cq → Study D cq
    unfolding insert_by_seed
    keep_result c s = record s {
      fit_results = s.fit_results ++ (c ∷ []);
      fit_results_bookkeep = s.fit_results_bookkeep ++ (c ∷ []);
      fit_results_by_seed = insert_by_seed c.seed c s.fit_results_by_seed;
    }

    -- The first loop, on fuel: it ends where the queue is empty.
    unfoldable pub take_results : ℕ → Study D cq → Study D cq
    unfolding get_fit_result keep_result
    take_results zero s = s
    take_results (suc n) s =
        let (c, s') = get_fit_result s in
        elim c [ none ↦ s' | some c ↦ take_results n (keep_result c s') ]

    -- EmptyResults
    unfoldable pub empty_results : Study D cq → Study D cq
    empty_results s = record s { fit_results = [] }
