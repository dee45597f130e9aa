-- ===== src/Toy/Study/Cursor.antt =====
-- GetEasyFitResult as a cursor over the entries of all files.
use doo_fit.Base.{
  ℕ, zero, suc, ◌+◌, ◌-◌, ◌^◌, ◌<◌, ◌==◌, ==_iff, Option, none, some, List, [], ◌∷◌, ◌++◌, length,
  get_elem?, Bool-cases, inl, inr, ◌≡◌, refl, sym, ap, subst, ◌∙◌, arith,
}
use doo_fit.Toy.Study.EasyResults.{
  FileTree, Result, ok, Files, EasyReader, wrap, get_entry, next_entry, open_file, read_open,
  get_with, get_easy_fit_result, Call, get, number, Answer, result, available,
}

wrap_pred : (n : ℕ) → suc n < 2 ^ 64 → wrap (suc n + 2 ^ 64 - 1) ≡ n
wrap_pred n h = omega arith

module _ {R : Type 0} where
  -- The specification: a list of results from which one is taken at a time.
  abbrev pub taken : List (R × R) → Option (R × R)
  taken [] = none
  taken (e ∷ es) = some e

  abbrev pub rest : List (R × R) → List (R × R)
  rest [] = []
  rest (e ∷ es) = es

  unfoldable pub spec : List Call → List (R × R) → List (Answer R)
  spec [] es = []
  spec (get ∷ cs) es = result (taken es) ∷ spec cs (rest es)
  spec (number ∷ cs) es = available (length es) ∷ spec cs es

  -- The entries from a position on.
  abbrev pub drop : ℕ → List (R × R) → List (R × R)
  drop zero es = es
  drop (suc n) [] = []
  drop (suc n) (e ∷ es) = drop n es

  -- All files have the tree, with an entry at least, and these are their entries.
  abbrev pub Holds : Files R → List FileTree → List (R × R) → Type 0
  Holds fs [] all = all ≡ []
  Holds fs (f ∷ files) all =
      (es : List (R × R)) × (later : List (R × R)) × (fs.entries f ≡ some es)
      × (0 < length es)
      × Holds fs files later
      × (all ≡ es ++ later)

  -- The entries that the reader has still to return.
  abbrev pub Ahead : Files R → EasyReader R → Option (List (R × R)) → List (R × R) → Type 0
  Ahead fs r none all = Holds fs r.results_files all
  Ahead fs r (some es) all =
      (old : R × R) × (later : List (R × R)) × (r.results ≡ some old)
      × (r.position < length es)
      × Holds fs r.results_files later
      × (all ≡ drop r.position es ++ later)

  -- A reader that has counted its results, and has these ahead.
  abbrev pub Reads : Files R → EasyReader R → List (R × R) → Type 0
  Reads fs r all = Ahead fs r r.file_tree all × (r.num_results ≡ length all)

  pub drop_at :
      (es : List (R × R)) (i : ℕ)
      → i < length es
      → (e : R × R) × (get_elem? es i ≡ some e) × (drop i es ≡ e ∷ drop (suc i) es)
  drop_at [] i h = absurd (omega arith)
  drop_at (e ∷ es) zero h = (e, refl, refl)
  drop_at (e ∷ es) (suc i) h = drop_at es i (omega arith)

  drop_end : (es : List (R × R)) (i : ℕ) → i ≡ length es → drop i es ≡ []
  drop_end [] zero h = refl
  drop_end [] (suc i) h = refl
  drop_end (e ∷ es) zero h = absurd (omega arith)
  drop_end (e ∷ es) (suc i) h = drop_end es i (omega arith)

  next_entry-taken :
      (es : List (R × R)) (old e : R × R) (r : EasyReader R)
      → get_elem? es r.position ≡ some e
      → (next_entry es old r).0 ≡ some e
  unfolding next_entry
  next_entry-taken es old e r g = rw (get_entry, g) refl

  num-next_entry :
      (es : List (R × R)) (old : R × R) (r : EasyReader R) (tail : List (R × R))
      → r.num_results ≡ suc (length tail)
      → suc (length tail) < 2 ^ 64
      → (next_entry es old r).1.num_results ≡ length tail
  unfolding next_entry
  num-next_entry es old r tail n small = rw n (wrap_pred (length tail) small)

  Ahead-next_entry :
      (fs : Files R) (es later : List (R × R)) (old e : R × R) (r : EasyReader R)
      → get_elem? es r.position ≡ some e
      → r.position < length es
      → Holds fs r.results_files later
      → Ahead fs
          (next_entry es old r).1
          (next_entry es old r).1.file_tree
          (drop (suc r.position) es ++ later)
  unfolding next_entry
  Ahead-next_entry fs es later old e r g h k = elim (Bool-cases (suc r.position == length es)) [
    | inl t ↦ rw (t, drop_end es (suc r.position) ((==_iff _ _).0 t)) k
    | inr t ↦ rw t (e, later, rw (get_entry, g) refl, ground arith, k, refl)
  ]

  -- Taking the entry at the position leaves the reader with the rest.
  next_entry-Reads :
      (fs : Files R) (es later all : List (R × R)) (old : R × R) (r : EasyReader R)
      → r.position < length es
      → Holds fs r.results_files later
      → all ≡ drop r.position es ++ later
      → r.num_results ≡ length all
      → length all < 2 ^ 64
      → ((next_entry es old r).0 ≡ taken all) × Reads fs (next_entry es old r).1 (rest all)
  next_entry-Reads fs es later all old r h k e n small =
      let (e0, g, d) = drop_at es r.position h in
      let whole : all ≡ e0 ∷ (drop (suc r.position) es ++ later) = e ∙ ap (λ l. l ++ later) d in
      subst (λ a. ((next_entry es old r).0 ≡ taken a) × Reads fs (next_entry es old r).1 (rest a))
        (sym whole)
        (
          next_entry-taken es old e0 r g,
          (
            Ahead-next_entry fs es later old e0 r g h k,
            num-next_entry es old r (drop (suc r.position) es ++ later) (n ∙ ap length whole)
                (subst (λ a. length a < 2 ^ 64) whole small),
          ),
        )

  -- What one call of GetEasyFitResult does.
  abbrev Takes : Files R → List (R × R) → Result (Option (R × R) × EasyReader R) → Type 0
  Takes fs all x = (r' : EasyReader R) × (x ≡ ok (taken all, r')) × Reads fs r' (rest all)

  Takes-of :
      (fs : Files R) (all : List (R × R)) (o : Option (R × R)) (r : EasyReader R)
      → o ≡ taken all
      → Reads fs r (rest all)
      → Takes fs all (ok (o, r))
  Takes-of fs all o r e h = (r, ap (λ x. ok (x, r)) e, h)

  open_file-Takes :
      (fs : Files R) (f : FileTree) (files : List FileTree) (all : List (R × R)) (r : EasyReader R)
      → Holds fs (f ∷ files) all
      → r.num_results ≡ length all
      → length all < 2 ^ 64
      → Takes fs all (open_file fs f files r)
  unfolding open_file
  open_file-Takes fs f files all r (es, later, found, some_entry, k, e) n small =
      let q : EasyReader R = record r {
        results_files = files;
        file_tree = some es;
        position = 0;
        results = some fs.blank;
      } in
      let (t, h) = next_entry-Reads fs es later all fs.blank q some_entry k e n small in
      rw (open_file, found)
        (Takes-of fs all (next_entry es fs.blank q).0 (next_entry es fs.blank q).1 t h)

  read_open-Takes :
      (fs : Files R) (es all : List (R × R)) (r : EasyReader R)
      → Ahead fs r (some es) all
      → r.num_results ≡ length all
      → length all < 2 ^ 64
      → Takes fs all (read_open es r.results r)
  unfolding read_open
  read_open-Takes fs es all r (old, later, res, h, k, e) n small =
      let (t, q) = next_entry-Reads fs es later all old r h k e n small in
      rw res (Takes-of fs all (next_entry es old r).0 (next_entry es old r).1 t q)

  get_with-Takes :
      (fs : Files R) (o : Option (List (R × R))) (files : List FileTree) (all : List (R × R))
      (r : EasyReader R)
      → r.file_tree ≡ o
      → r.results_files ≡ files
      → Ahead fs r o all
      → r.num_results ≡ length all
      → length all < 2 ^ 64
      → Takes fs all (get_with fs o files r)
  unfolding get_with
  get_with-Takes fs none [] all r o f h n small =
      let nil : all ≡ [] = subst (λ l. Holds fs l all) f h in
      let q : EasyReader R = record r { results = none } in
      let done : Holds fs r.results_files [] = subst (λ a. Holds fs r.results_files a) nil h in
      subst (λ a. Takes fs a (ok (none, q))) (sym nil)
        (q, refl, (subst (λ x. Ahead fs q x []) (sym o) done, n ∙ ap length nil))
  get_with-Takes fs none (f ∷ files) all r o e h n small =
      open_file-Takes fs f files all r (subst (λ l. Holds fs l all) e h) n small
  get_with-Takes fs (some es) files all r o f h n small = read_open-Takes fs es all r h n small

  pub get-Takes :
      (fs : Files R) (all : List (R × R)) (r : EasyReader R)
      → Reads fs r all
      → length all < 2 ^ 64
      → Takes fs all (get_easy_fit_result fs r)
  unfolding get_easy_fit_result
  get-Takes fs all r (h, n) small =
      get_with-Takes fs r.file_tree r.results_files all r refl refl h n small
