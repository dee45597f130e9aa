-- ===== src/Toy/Study/Refinement.antt =====
-- Histories of GetEasyFitResult and NumberOfAvailableEasyFitResults.
use native.Mathlib.Nat.{mod-eq_of_lt}
use doo_fit.Base.{
  ℕ, ◌+◌, ◌^◌, ◌<◌, ◌==◌, ==_iff, Option, none, some, List, [], ◌∷◌, length, Bool-cases,
  length-append, inl, inr, ◌≡◌, refl, sym, ap, subst, ◌∙◌, arith,
}
use doo_fit.Toy.Study.EasyResults.{
  FileTree, ok, Files, EasyReader, add_entries, number_of_available, Call, get, number, run,
}
use doo_fit.Toy.Study.Cursor.{rest, spec, drop, Holds, Ahead, Reads, drop_at, get-Takes}

module _ {R : Type 0} where
  Holds_none :
      (fs : Files R) (files : List FileTree) (all : List (R × R))
      → Holds fs files all
      → length all ≡ 0
      → files ≡ []
  Holds_none fs [] all h z = refl
  Holds_none fs (f ∷ files) all (es, later, found, one, k, e) z =
      absurd (omega (arith, ap length e, length-append es later))

  length-drop : (es : List (R × R)) (i : ℕ) → i < length es → 0 < length (drop i es)
  length-drop es i h = let (e, g, d) = drop_at es i h in omega (arith, ap length d)

  -- A reader with nothing ahead has no file left.
  Ahead-none :
      (fs : Files R) (o : Option (List (R × R))) (all : List (R × R)) (r : EasyReader R)
      → Ahead fs r o all
      → length all ≡ 0
      → r.results_files ≡ []
  Ahead-none fs none all r h z = Holds_none fs r.results_files all h z
  Ahead-none fs (some es) all r (old, later, res, h, k, e) z = absurd (
      omega
        (arith, ap length e, length-append (drop r.position es) later, length-drop es r.position h))

  number_same :
      (fs : Files R) (r : EasyReader R)
      → (r.num_results ≡ 0 → r.results_files ≡ [])
      → number_of_available fs r ≡ (r.num_results, r)
  unfolding number_of_available
  number_same fs r none_left = elim (Bool-cases (r.num_results == 0)) [
    | inl t ↦
        let e = none_left ((==_iff _ _).0 t) in
        rw t
          (ap (λ l. let n = add_entries fs l r.num_results in (n, record r { num_results = n })) e)
    | inr t ↦ rw t refl
  ]

  number-Reads :
      (fs : Files R) (all : List (R × R)) (r : EasyReader R)
      → Reads fs r all
      → number_of_available fs r ≡ (length all, r)
  number-Reads fs all r (h, n) =
      number_same fs r (λ z. Ahead-none fs r.file_tree all r h (sym n ∙ z)) ∙ ap (λ k. (k, r)) n

  length-rest : (all : List (R × R)) → length all < 2 ^ 64 → length (rest all) < 2 ^ 64
  length-rest [] h = h
  length-rest (e ∷ all) h = omega arith

  -- If every file left has its tree with an entry at least, and the available results are counted,
  -- any history of GetEasyFitResult and NumberOfAvailableEasyFitResults answers as the list of the
  -- entries ahead does: each entry once, in the order of the files, then null pointers, and the number
  -- of those left.
  spec-run :
      (fs : Files R) (cs : List Call) (all : List (R × R)) (r : EasyReader R)
      → Reads fs r all
      → length all < 2 ^ 64
      → (r' : EasyReader R) × (run fs cs r ≡ ok (spec cs all, r'))
  unfolding run spec
  spec-run fs [] all r h small = (r, refl)
  spec-run fs (get ∷ cs) all r h small =
      let (q, e, k) = get-Takes fs all r h small in
      let (r', f) = spec-run fs cs (rest all) q k (length-rest all small) in (r', rw (e, f) refl)
  spec-run fs (number ∷ cs) all r h small =
      let (r', f) = spec-run fs cs all r h small in (r', rw (number-Reads fs all r h, f) refl)

  add_entries-Holds :
      (fs : Files R) (files : List FileTree) (all : List (R × R)) (n : ℕ)
      → Holds fs files all
      → n + length all < 2 ^ 64
      → add_entries fs files n ≡ n + length all
  unfolding add_entries
  add_entries-Holds fs [] all n e small = omega (arith, ap length e)
  add_entries-Holds fs (f ∷ files) all n (es, later, found, one, k, e) small =
      let sum : length all ≡ length es + length later = ap length e ∙ length-append es later in
      rw (found, mod-eq_of_lt {n = n + length es} {m = 2 ^ 64} (omega arith))
        (add_entries-Holds fs files later (n + length es) k (omega arith) ∙ omega arith)

  number-fresh :
      (fs : Files R) (all : List (R × R)) (r : EasyReader R)
      → r.num_results ≡ 0
      → Holds fs r.results_files all
      → length all < 2 ^ 64
      → number_of_available fs r ≡ (length all, record r { num_results = length all })
  unfolding number_of_available
  number-fresh fs all r z h small =
      let e : add_entries fs r.results_files 0 ≡ length all =
        add_entries-Holds fs r.results_files all 0 h (omega arith) ∙ omega arith in
      rw (z, e) refl

  -- If no result is counted, no tree is open and every file has its tree with an entry at least,
  -- NumberOfAvailableEasyFitResults and then any history of it and GetEasyFitResult answer as the list
  -- of the entries of all files does: each entry once, in the order of the files, then null pointers,
  -- and the number of those left.
  pub run-refines :
      (fs : Files R) (cs : List Call) (all : List (R × R)) (r : EasyReader R)
      → r.num_results ≡ 0
      → r.file_tree ≡ none
      → Holds fs r.results_files all
      → length all < 2 ^ 64
      → (r' : EasyReader R) × (run fs (number ∷ cs) r ≡ ok (spec (number ∷ cs) all, r'))
  unfolding run spec
  run-refines fs cs all r z none_open h small =
      let q : EasyReader R = record r { num_results = length all } in
      let (r', e) =
        spec-run fs cs all q (subst (λ o. Ahead fs q o all) (sym none_open) h, refl) small in
      (r', rw (number-fresh fs all r z h small, e) refl)
