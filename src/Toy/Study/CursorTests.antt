-- ===== src/Toy/Study/CursorTests.antt =====
-- Runs of GetEasyFitResult and NumberOfAvailableEasyFitResults, and the theorems at concrete inputs.
use doo_fit.Base.{
  ℕ, ◌-◌, ◌^◌, str_eq, Option, none, some, List, [], ◌∷◌, if◌then◌else◌, ◌≡◌, refl, arith,
}
use doo_fit.Toy.Study.EasyResults.{
  FileTree, Result, ok, null_tree, Files, EasyReader, get_easy_fit_result, number_of_available, get,
  number, Answer, result, available, run,
}
use doo_fit.Toy.Study.Cursor.{spec}
use doo_fit.Toy.Study.Refinement.{run-refines}
use doo_fit.Toy.Study.EmptyTree.{gets, repeated, run-empty_tree}

-- Two files with two and one results, and one with an empty tree.
abbrev files : Files ℕ
files = record {
  entries = λ f.
      if str_eq f.0 "a.root"
      then some ((1, 2) ∷ (3, 4) ∷ [])
      else if str_eq f.0 "b.root"
      then some ((5, 6) ∷ [])
      else if str_eq f.0 "empty.root"
      then some []
      else none;
  blank = (0, 0);
}

abbrev reader : List FileTree → EasyReader ℕ
reader fs = record {
  results_files = fs;
  file_tree = none;
  position = 0;
  num_results = 0;
  results = none;
}

abbrev two_files : List FileTree
two_files = ("a.root", "t") ∷ ("b.root", "t") ∷ []

abbrev then_empty : List FileTree
then_empty = ("empty.root", "t") ∷ two_files

abbrev answers : {A : Type 0} → Result (List (Answer ℕ) × A) → Option (List (Answer ℕ))
answers (ok (as_, r)) = some as_
answers null_tree = none

run-two :
    answers (run files (number ∷ get ∷ get ∷ number ∷ get ∷ get ∷ number ∷ []) (reader two_files))
    ≡ some (
        available 3
        ∷ result (some (1, 2))
        ∷ result (some (3, 4))
        ∷ available 1
        ∷ result (some (5, 6))
        ∷ result none
        ∷ available 0
        ∷ [])
unfolding run get_easy_fit_result number_of_available
run-two = refl

-- Without a count first, the number of results goes below zero and wraps around.
run-uncounted :
    answers (run files (get ∷ number ∷ []) (reader two_files))
    ≡ some (result (some (1, 2)) ∷ available (2 ^ 64 - 1) ∷ [])
unfolding run get_easy_fit_result number_of_available
run-uncounted = refl

run-missing : answers (run files (get ∷ []) (reader (("none.root", "t") ∷ []))) ≡ none
unfolding run get_easy_fit_result
run-missing = refl

run-refines_example :
    (r : EasyReader ℕ) × (run files (number ∷ get ∷ get ∷ []) (reader two_files)
      ≡ ok (spec (number ∷ get ∷ get ∷ []) ((1, 2) ∷ (3, 4) ∷ (5, 6) ∷ []), r))
run-refines_example =
    run-refines files (get ∷ get ∷ []) ((1, 2) ∷ (3, 4) ∷ (5, 6) ∷ []) (reader two_files) refl refl
      (
        (1, 2) ∷ (3, 4) ∷ [],
        (5, 6) ∷ [],
        refl,
        omega arith,
        ((5, 6) ∷ [], [], refl, omega arith, refl, refl),
        refl,
      )
      (omega arith)

run-empty_tree_example :
    (r : EasyReader ℕ) × (run files (gets 3) (reader then_empty)
      ≡ ok (repeated 3 (result (some (0, 0))), r))
    × (r.results_files ≡ two_files)
run-empty_tree_example =
    run-empty_tree files 2 ("empty.root", "t") two_files (reader then_empty) refl refl refl
