-- ===== src/Toy/Study/EasyResults.antt =====
-- GetEasyFitResult and NumberOfAvailableEasyFitResults of ToyStudyStd. What a tree of a file holds
-- is a parameter: its entries, each with the contents of two EasyFitResults, or none where there is
-- no such tree.
use doo_fit.Base.{
  ℕ, suc, ◌+◌, ◌-◌, ◌%◌, ◌^◌, ◌==◌, String, Option, none, some, List, [], ◌∷◌, length, get_elem?,
  if◌then◌else◌,
}

-- A file name and the name of a tree.
abbrev pub FileTree : Type 0
FileTree = String × String

-- `null_tree`: the undefined read through a null pointer to a tree.
pub data Result {ℓ} (A : Type ℓ) : Type ℓ where
  ok : A → Result A
  null_tree : Result A

-- The files: the entries of a tree, and what two new EasyFitResults hold before the first entry.
pub record Files (R : Type 0) : Type 0 where
  pub entries : FileTree → Option (List (R × R))
  pub blank : R × R

-- The members of ToyStudyStd that these functions use. `file_tree` is the open file and tree, as the
-- entries of the tree; `results` are the two EasyFitResults.
pub record EasyReader (R : Type 0) : Type 0 where
  pub results_files : List FileTree
  pub file_tree : Option (List (R × R))
  pub position : ℕ
  pub num_results : ℕ
  pub results : Option (R × R)

-- unsigned long long
abbrev pub wrap : ℕ → ℕ
wrap n = n % 2 ^ 64

module _ {R : Type 0} where
  -- `tree->GetEntries()` of the trees that are found.
  unfoldable pub add_entries : Files R → List FileTree → ℕ → ℕ
  add_entries fs [] n = n
  add_entries fs (f ∷ files) n =
      add_entries fs files (elim (fs.entries f) [ none ↦ n | some es ↦ wrap (n + length es) ])

  -- NumberOfAvailableEasyFitResults
  unfoldable pub number_of_available : Files R → EasyReader R → ℕ × EasyReader R
  unfolding add_entries
  number_of_available fs r =
      let n =
        if r.num_results == 0
        then add_entries fs r.results_files r.num_results
        else r.num_results in
      (n, record r { num_results = n })

  -- TTree::GetEntry fills the two results; past the end it leaves them as they are.
  unfoldable pub get_entry : List (R × R) → ℕ → R × R → R × R
  get_entry es i old = elim (get_elem? es i) [ none ↦ old | some e ↦ e ]

  -- GetEasyFitResult from `tree->GetEntry` on.
  unfoldable pub next_entry : List (R × R) → R × R → EasyReader R → Option (R × R) × EasyReader R
  unfolding get_entry
  next_entry es old r =
      let e = get_entry es r.position old in
      (
        some e,
        record r {
          file_tree = if suc r.position == length es then none else some es;
          position = suc r.position;
          num_results = wrap (r.num_results + 2 ^ 64 - 1);
          results = some e;
        },
      )

  -- Opens the next file.
  unfoldable pub open_file :
      Files R → FileTree → List FileTree → EasyReader R → Result (Option (R × R) × EasyReader R)
  unfolding next_entry
  open_file fs f files r = elim (fs.entries f) [
    | none ↦ null_tree
    | some es ↦ ok (
        next_entry es fs.blank (record r {
          results_files = files;
          file_tree = some es;
          position = 0;
          results = some fs.blank;
        }))
  ]

  -- An open tree: the two results are not null.
  unfoldable pub read_open :
      List (R × R) → Option (R × R) → EasyReader R → Result (Option (R × R) × EasyReader R)
  unfolding next_entry
  read_open es none r = null_tree
  read_open es (some old) r = ok (next_entry es old r)

  -- GetEasyFitResult: none for two null pointers.
  unfoldable pub get_with :
      Files R
      → Option (List (R × R))
      → List FileTree
      → EasyReader R
      → Result (Option (R × R) × EasyReader R)
  unfolding open_file read_open
  get_with fs none [] r = ok (none, record r { results = none })
  get_with fs none (f ∷ files) r = open_file fs f files r
  get_with fs (some es) files r = read_open es r.results r

  unfoldable pub get_easy_fit_result :
      Files R → EasyReader R → Result (Option (R × R) × EasyReader R)
  unfolding get_with
  get_easy_fit_result fs r = get_with fs r.file_tree r.results_files r

-- The public calls, and what they answer.
pub data Call : Type 0 where
  get number : Call

pub data Answer (R : Type 0) : Type 0 where
  result : Option (R × R) → Answer R
  available : ℕ → Answer R

module _ {R : Type 0} where
  abbrev pub answer :
      Answer R → Result (List (Answer R) × EasyReader R) → Result (List (Answer R) × EasyReader R)
  answer a null_tree = null_tree
  answer a (ok (rest, r)) = ok (a ∷ rest, r)

  -- The answer of GetEasyFitResult, and those of the calls after it.
  abbrev pub and_then :
      Result (Option (R × R) × EasyReader R)
      → (EasyReader R → Result (List (Answer R) × EasyReader R))
      → Result (List (Answer R) × EasyReader R)
  and_then null_tree k = null_tree
  and_then (ok (a, r)) k = answer (result a) (k r)

  -- A history of calls.
  unfoldable pub run : Files R → List Call → EasyReader R → Result (List (Answer R) × EasyReader R)
  run fs [] r = ok ([], r)
  run fs (get ∷ cs) r = and_then (get_easy_fit_result fs r) (run fs cs)
  run fs (number ∷ cs) r =
      let (n, r') = number_of_available fs r in answer (available n) (run fs cs r')
