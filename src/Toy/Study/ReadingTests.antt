-- ===== src/Toy/Study/ReadingTests.antt =====
-- Runs of ReadFitResultWorker and of the first loop of EvaluateFitResults, and the theorems at concrete inputs. Doubles
-- are numbers.
use doo_fit.Base.{
  ℕ, ◌==◌, str_eq, Bool, true, false, Option, none, some, List, [], ◌∷◌, ◌++◌, map, ℤ, pos, negsuc,
  if◌then◌else◌, ◌≡◌, refl, inr, arith,
}
use doo_fit.Fitter.EasyFitResult.Convert.{RooRealVar, RooFitResult}
use doo_fit.Toy.Study.Saving.{ConcurrentQueue, QueueLaws}
use doo_fit.Toy.Study.EasyResults.{FileTree}
use doo_fit.Toy.Study.Quality.{Numbers, fit_result_okay, fit_result_no_asymmetric_errors}
use doo_fit.Toy.Study.Reading.{
  Container, Entry, Opened, unreadable, no_branch, entries, Config, Outcome, returned, Study,
  read_fit_result_worker,
}
use doo_fit.Toy.Study.Limit.{HasRead, read_fit_result_worker-HasRead}
use doo_fit.Toy.Study.Evaluation.{select, take_results, empty_results}
use doo_fit.Toy.Study.Partners.{select_lem}
use doo_fit.Toy.Study.Taken.{AreTaken, take_results_lem}

abbrev tail : List (Container ℕ) → List (Container ℕ)
tail [] = []
tail (x ∷ xs) = xs

abbrev queues : ConcurrentQueue (Container ℕ)
queues = record {
  Queue = List (Container ℕ) × Bool;
  contents = λ q. q.0;
  is_disabled = λ q. q.1;
  fresh = ([], false);
  push = λ c q. (q.0 ++ (c ∷ []), q.1);
  pop = λ q. (tail q.0, q.1);
  disable_queue = λ q. (q.0, true);
}

abbrev laws : QueueLaws queues
laws = record {
  contents-fresh = refl;
  contents-push = λ a q. refl;
  contents-pop = λ a rest q e. rw e refl;
  contents-disable = λ q. refl;
  disabled-disable = λ q. refl;
  disabled-push = λ a q. refl;
  disabled-pop = λ q. refl;
}

abbrev numbers : Numbers ℕ
numbers = record { nearly_equal = λ a b e. a == b; no_code = negsuc 29 }

abbrev parameter : ℕ → RooRealVar ℕ
parameter v = record {
  name = "mass";
  title = "mass";
  unit = "";
  val = v;
  is_constant = false;
  lower = none;
  upper = none;
  error = some 1;
  asym_error = none;
}

-- A result with a final value of the parameter, which starts at 1, and a quality.
abbrev result : ℕ → ℤ → RooFitResult ℕ
result v quality = record {
  cov_qual = quality;
  min_nll = 0;
  edm = 0;
  status_history = ("MIGRAD", pos 0) ∷ [];
  const_pars = [];
  float_pars_final = parameter v ∷ [];
  float_pars_init = parameter 1 ∷ [];
}

abbrev entry : RooFitResult ℕ → ℤ → Entry ℕ
entry f seed = record {
  fit_result = some f;
  fit_result2 = none;
  time_cpu1 = some 7;
  time_real1 = none;
  time_cpu2 = none;
  time_real2 = none;
  entry_seed = some seed;
  entry_run_id = none;
}

abbrev files : FileTree → Opened ℕ
files f =
    if str_eq f.0 "a.root"
    then entries (entry (result 5 (pos 3)) (pos 9) ∷ entry (result 1 (pos 3)) (pos 8) ∷ [])
    else if str_eq f.0 "b.root"
    then entries (entry (result 6 (pos 3)) (pos 4) ∷ entry (result 7 (pos 1)) (pos 3) ∷ [])
    else if str_eq f.0 "easy.root"
    then no_branch true
    else unreadable

abbrev config : ℤ → Config
config limit = record {
  read_results_filename_treename =
      ("a.root", "t") ∷ ("easy.root", "t") ∷ ("none.root", "t") ∷ ("b.root", "t") ∷ [];
  num_toys_read = limit;
  min_acceptable_cov_matrix_quality = pos 3;
  evaluate_reference_toys = false;
  reference_toys_id = pos 0;
}

abbrev study : List (Container ℕ) → Study ℕ queues
study cs = record {
  fit_results = [];
  fit_results_by_seed = [];
  fit_results_bookkeep = [];
  read_queue = (cs, false);
  release_queue = ([], false);
  results_files_easyfit = [];
  reading_fit_results = true;
}

abbrev seeds : Outcome (Study ℕ queues) → Option (List ℤ × List FileTree)
seeds (returned s) = some (map (λ c. c.seed) s.read_queue.0, s.results_files_easyfit)
seeds _ = none

-- The second result of each file is not okay: no parameter has moved, or the quality is low.
read-all :
    seeds (read_fit_result_worker queues 0 numbers (config (negsuc 0)) files (study []))
    ≡ some (pos 9 ∷ pos 4 ∷ [], ("easy.root", "t") ∷ [])
unfolding read_fit_result_worker
read-all = refl

-- With one toy asked for, the later files are not opened.
read-one :
    seeds (read_fit_result_worker queues 0 numbers (config (pos 1)) files (study []))
    ≡ some (pos 9 ∷ [], [])
unfolding read_fit_result_worker
read-one = refl

no-asymmetric : fit_result_no_asymmetric_errors (result 5 (pos 3)) ≡ true
unfolding fit_result_no_asymmetric_errors
no-asymmetric = refl

read_fit_result_worker-HasRead_example :
    HasRead queues laws 0 numbers
      (config (pos 1))
      files
      (("a.root", "t") ∷ ("easy.root", "t") ∷ ("none.root", "t") ∷ ("b.root", "t") ∷ [])
      (study [])
      (read_fit_result_worker queues 0 numbers (config (pos 1)) files (study []))
unfolding fit_result_okay
read_fit_result_worker-HasRead_example =
    read_fit_result_worker-HasRead queues laws 0 numbers (config (pos 1)) files ("a.root", "t")
      (("easy.root", "t") ∷ ("none.root", "t") ∷ ("b.root", "t") ∷ []) (study []) refl refl
      (
        ((result 5 (pos 3), refl, true, refl), ((result 1 (pos 3), refl, false, refl), tt)),
        (
          tt,
          (
            tt,
            (
              ((result 6 (pos 3), refl, true, refl), ((result 7 (pos 1), refl, false, refl), tt)),
              tt,
            ),
          ),
        ),
      )

abbrev sample : ℤ → ℕ → Container ℕ
sample seed v = record {
  fit_result1 = result v (pos 3);
  fit_result2 = none;
  times = record { cpu1 = 0; real1 = 0; cpu2 = 0; real2 = 0 };
  seed = seed;
  run_id = pos 0;
}

abbrev three : Study ℕ queues
three = study (sample (pos 5) 1 ∷ sample (pos 2) 0 ∷ sample (pos 3) 4 ∷ [])

takes-three :
    (take_results queues 3 three).fit_results_by_seed
    ≡ (pos 2, sample (pos 2) 0) ∷ (pos 3, sample (pos 3) 4) ∷ (pos 5, sample (pos 5) 1) ∷ []
unfolding take_results
takes-three = refl

-- The reference of a toy is the result of its seed with another run id; without one, nothing is
-- evaluated.
abbrev reference : Container ℕ
reference = record (sample (pos 5) 8) { run_id = pos 1 }

abbrev by_reference : Config
by_reference = record (config (pos 0)) { evaluate_reference_toys = true }

selects :
    select by_reference ((pos 5, sample (pos 5) 1) ∷ (pos 5, reference) ∷ []) (sample (pos 5) 1)
    ≡ some (result 1 (pos 3), some (result 8 (pos 3)))
unfolding select
selects = refl

selects-nothing : select by_reference ((pos 5, sample (pos 5) 1) ∷ []) (sample (pos 5) 1) ≡ none
unfolding select
selects-nothing = refl

select_lem_example :
    (select by_reference
        ((pos 5, reference) ∷ (pos 5, sample (pos 5) 1) ∷ (pos 8, sample (pos 8) 2) ∷ [])
        (sample (pos 5) 1)
      ≡ some (result 1 (pos 3), some (result 8 (pos 3))))
    × (select by_reference
          ((pos 5, reference) ∷ (pos 5, sample (pos 5) 1) ∷ (pos 8, sample (pos 8) 2) ∷ [])
          reference
        ≡ none)
select_lem_example =
    select_lem by_reference
      ((pos 5, reference) ∷ (pos 5, sample (pos 5) 1) ∷ (pos 8, sample (pos 8) 2) ∷ [])
      (sample (pos 5) 1) reference refl refl refl (λ e. cc) (inr refl)

-- After EmptyResults, the map still has the old results.
keeps-old :
    (empty_results queues (take_results queues 3 three)).fit_results_by_seed
    ≡ (take_results queues 3 three).fit_results_by_seed
unfolding empty_results
keeps-old = refl

take_results_lem_example :
    AreTaken queues laws
      (sample (pos 5) 1 ∷ sample (pos 2) 0 ∷ sample (pos 3) 4 ∷ [])
      three
      (take_results queues 4 three)
take_results_lem_example = take_results_lem queues laws 4 three tt (omega arith)
