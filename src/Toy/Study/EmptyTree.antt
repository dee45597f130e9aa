-- ===== src/Toy/Study/EmptyTree.antt =====
-- GetEasyFitResult on a tree without entries.
use doo_fit.Base.{ℕ, zero, suc, none, some, List, [], ◌∷◌, ◌≡◌, refl, ◌∙◌, arith}
use doo_fit.Toy.Study.EasyResults.{
  FileTree, ok, Files, EasyReader, get_entry, next_entry, open_file, read_open, get_with,
  get_easy_fit_result, Call, get, Answer, result, run,
}

-- A history of GetEasyFitResult alone.
abbrev pub gets : ℕ → List Call
gets zero = []
gets (suc n) = get ∷ gets n

module _ {R : Type 0} where
  abbrev pub repeated : ℕ → Answer R → List (Answer R)
  repeated zero a = []
  repeated (suc n) a = a ∷ repeated n a

  get_open_empty :
      (fs : Files R) (old : R × R) (r : EasyReader R)
      → r.file_tree ≡ some []
      → r.results ≡ some old
      → get_easy_fit_result fs r ≡ ok (some old, (next_entry [] old r).1)
  unfolding get_easy_fit_result get_with read_open next_entry get_entry
  get_open_empty fs old r o res = rw (o, res) refl

  next_empty_open : (old : R × R) (r : EasyReader R) → (next_entry [] old r).1.file_tree ≡ some []
  unfolding next_entry
  next_empty_open old r = ground arith

  next_empty_results : (old : R × R) (r : EasyReader R) → (next_entry [] old r).1.results ≡ some old
  unfolding next_entry get_entry
  next_empty_results old r = refl

  next_empty_files :
      (old : R × R) (r : EasyReader R) → (next_entry [] old r).1.results_files ≡ r.results_files
  unfolding next_entry
  next_empty_files old r = refl

  -- The reader with an empty tree just opened.
  abbrev opened : Files R → List FileTree → EasyReader R → EasyReader R
  opened fs files r = record r {
    results_files = files;
    file_tree = some [];
    position = 0;
    results = some fs.blank;
  }

  get_first_empty :
      (fs : Files R) (f : FileTree) (files : List FileTree) (r : EasyReader R)
      → r.file_tree ≡ none
      → r.results_files ≡ f ∷ files
      → fs.entries f ≡ some []
      → get_easy_fit_result fs r
        ≡ ok (some fs.blank, (next_entry [] fs.blank (opened fs files r)).1)
  unfolding get_easy_fit_result get_with open_file next_entry get_entry
  get_first_empty fs f files r o l found = rw (o, l, open_file, found) refl

  run-open_empty :
      (fs : Files R) (n : ℕ) (old : R × R) (r : EasyReader R)
      → r.file_tree ≡ some []
      → r.results ≡ some old
      → (r' : EasyReader R) × (run fs (gets n) r ≡ ok (repeated n (result (some old)), r'))
        × (r'.file_tree ≡ some [])
        × (r'.results_files ≡ r.results_files)
  unfolding run
  run-open_empty fs zero old r o res = (r, refl, o, refl)
  run-open_empty fs (suc n) old r o res =
      let q = (next_entry [] old r).1 in
      let (r', e, t, k) =
        run-open_empty fs n old q (next_empty_open old r) (next_empty_results old r) in
      (r', rw (get_open_empty fs old r o res, e) refl, t, k ∙ next_empty_files old r)

  -- If the tree of the next file has no entry, GetEasyFitResult never closes it: however often it is
  -- called, it returns two new EasyFitResults, never null pointers, and opens no later file.
  pub run-empty_tree :
      (fs : Files R) (n : ℕ) (f : FileTree) (files : List FileTree) (r : EasyReader R)
      → r.file_tree ≡ none
      → r.results_files ≡ f ∷ files
      → fs.entries f ≡ some []
      → (r' : EasyReader R) × (run fs (gets (suc n)) r
          ≡ ok (repeated (suc n) (result (some fs.blank)), r'))
        × (r'.results_files ≡ files)
  unfolding run
  run-empty_tree fs n f files r o l found =
      let q = (next_entry [] fs.blank (opened fs files r)).1 in
      let (r', e, t, k) =
        run-open_empty fs n fs.blank q (next_empty_open fs.blank (opened fs files r))
          (next_empty_results fs.blank (opened fs files r)) in
      (
        r',
        rw (get_first_empty fs f files r o l found, e) refl,
        k ∙ next_empty_files fs.blank (opened fs files r),
      )
