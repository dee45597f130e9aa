-- ===== src/Toy/Study/Batches.antt =====
-- What the tree of fit results holds after a batch is saved.
use mathlib.Core.List.{append-nil}
use doo_fit.Base.{
  sym, subst, Bool, true, false, ◌&&◌, not, Option, none, some, List, [], ◌∷◌, ◌++◌, map, All,
  if◌then◌else◌, ◌≡◌, refl, ap, arith,
}
use doo_fit.Toy.Study.SaveBatch.{
  FitResultContainer, Row, Tree, Saved, saved, is_set, fill, fill_all, new_tree, save_batch,
}

module _ {F : Type 0} where
  second_full : (b : Bool) (o : Option F) → is_set o ≡ b → (if b then o else none) ≡ o
  second_full true o e = refl
  second_full false none e = refl
  second_full false (some f) e = cc

module _ {F T : Type 0} where
  -- An entry that holds all of a container.
  abbrev pub full : FitResultContainer F T → Row F T
  full c = record {
    first = c.fit_result1;
    second = c.fit_result2;
    row_times = some c.times;
    row_seed = some c.seed;
    row_run_id = some c.run_id;
  }

  -- All have a second result, or none has.
  abbrev pub Uniform : Bool → List (FitResultContainer F T) → Type 0
  Uniform b cs = All (λ c. is_set c.fit_result2 ≡ b) cs

  abbrev pub rows_of : Option (Tree F T) → List (Row F T)
  rows_of none = []
  rows_of (some t) = t.rows

  -- A tree that this program has made.
  abbrev pub IsOwn : Bool → Option (Tree F T) → Type 0
  IsOwn b none = Unit
  IsOwn b (some t) =
      (t.branch1 ≡ true)
      × (t.branch2 ≡ b)
      × (t.time_branches ≡ true)
      × (t.seed_branch ≡ true)
      × (t.run_id_branch ≡ true)

  fill-full :
      (b : Bool) (t : Tree F T) (c : FitResultContainer F T)
      → IsOwn b (some t)
      → is_set c.fit_result2 ≡ b
      → fill b t c ≡ full c
  unfolding fill
  fill-full b t c (b1, b2, ti, se, ru) e = rw (ti, se, ru, second_full b c.fit_result2 e) refl

  map-fill-full :
      (b : Bool) (t : Tree F T) (cs : List (FitResultContainer F T))
      → IsOwn b (some t)
      → Uniform b cs
      → map (fill b t) cs ≡ map full cs
  map-fill-full b t [] o u = refl
  map-fill-full b t (c ∷ cs) o u =
      rw (fill-full b t c o u.0) (ap (◌∷◌ (full c)) (map-fill-full b t cs o u.1))

  fill_all-IsOwn :
      (b : Bool) (t : Tree F T) (cs : List (FitResultContainer F T))
      → IsOwn b (some t)
      → IsOwn b (some (fill_all b t cs))
  unfolding fill_all
  fill_all-IsOwn b t cs o = o

  rows-fill_all :
      (b : Bool) (t : Tree F T) (cs : List (FitResultContainer F T))
      → IsOwn b (some t)
      → Uniform b cs
      → (fill_all b t cs).rows ≡ t.rows ++ map full cs
  unfolding fill_all
  rows-fill_all b t cs o u = ap (λ l. t.rows ++ l) (map-fill-full b t cs o u)

  -- What is wanted of saving some containers.
  abbrev Stores :
      Bool → Option (Tree F T) → List (FitResultContainer F T) → Saved (Option (Tree F T)) → Type 0
  Stores b file cs s =
      (file' : Option (Tree F T)) × (s ≡ saved file')
      × IsOwn b file'
      × (rows_of file' ≡ rows_of file ++ map full cs)

  fill_all-Stores :
      (b : Bool) (t : Tree F T) (cs : List (FitResultContainer F T)) (s : Bool)
      → s ≡ b
      → IsOwn b (some t)
      → Uniform b cs
      → Stores b (some t) cs (saved (some (fill_all s t cs)))
  fill_all-Stores b t cs s e o u = (
    some (fill_all b t cs),
    ap (λ x. saved (some (fill_all x t cs))) e,
    fill_all-IsOwn b t cs o,
    rows-fill_all b t cs o u,
  )

  save_batch_ready :
      (t : Tree F T) (c : FitResultContainer F T) (cs : List (FitResultContainer F T))
      → t.branch1 ≡ true
      → (is_set c.fit_result2 && not t.branch2) ≡ false
      → save_batch (some t) (c ∷ cs) ≡ saved (some (fill_all (is_set c.fit_result2) t (c ∷ cs)))
  unfolding save_batch
  save_batch_ready t c cs e f = simp (e, f)

  -- Where the tree is new or of this program, and all containers have a second result or none has, the
  -- batch is saved and every container gets an entry that holds all of it.
  pub save_batch-Stores :
      (b : Bool) (file : Option (Tree F T)) (cs : List (FitResultContainer F T))
      → IsOwn b file
      → Uniform b cs
      → Stores b file cs (save_batch file cs)
  unfolding save_batch
  save_batch-Stores b file [] o u = (file, refl, o, sym (append-nil (rows_of file)))
  save_batch-Stores b none (c ∷ cs) o u =
      rw u.0 (fill_all-Stores b (new_tree b) (c ∷ cs) b refl (refl, refl, refl, refl, refl) u)
  save_batch-Stores b (some t) (c ∷ cs) o u =
      let (b1, b2, ti, se, ru) = o in
      let ready : (is_set c.fit_result2 && not t.branch2) ≡ false = ground arith in
      subst (Stores b (some t) (c ∷ cs)) (sym (save_batch_ready t c cs b1 ready))
        (fill_all-Stores b t (c ∷ cs) (is_set c.fit_result2) u.0 o u)

  -- No entry has a second result.
  abbrev NoSecond : List (Row F T) → Type 0
  NoSecond rows = All (λ r. r.second ≡ none) rows

  map-fill-NoSecond :
      (t : Tree F T) (cs : List (FitResultContainer F T)) → NoSecond (map (fill false t) cs)
  unfolding fill
  map-fill-NoSecond t [] = tt
  map-fill-NoSecond t (c ∷ cs) = (refl, map-fill-NoSecond t cs)

  map-fill-first :
      (b : Bool) (t : Tree F T) (cs : List (FitResultContainer F T))
      → map (λ r. r.first) (map (fill b t) cs) ≡ map (λ c. c.fit_result1) cs
  unfolding fill
  map-fill-first b t [] = refl
  map-fill-first b t (c ∷ cs) = ap (◌∷◌ c.fit_result1) (map-fill-first b t cs)

  fill_all-first :
      (b : Bool) (t : Tree F T) (cs : List (FitResultContainer F T))
      → t.rows ≡ []
      → map (λ r. r.first) (fill_all b t cs).rows ≡ map (λ c. c.fit_result1) cs
  unfolding fill_all
  fill_all-first b t cs e = rw e (map-fill-first b t cs)

  fill_all-NoSecond :
      (t : Tree F T) (cs : List (FitResultContainer F T))
      → t.rows ≡ []
      → NoSecond (fill_all false t cs).rows
  unfolding fill_all
  fill_all-NoSecond t cs e = rw e (map-fill-NoSecond t cs)

  -- If the first container of a batch has no second result, the whole batch goes into a new tree with
  -- the first results and without any second result, also where later containers have one.
  save_batch-drops :
      (c : FitResultContainer F T) (cs : List (FitResultContainer F T))
      → c.fit_result2 ≡ none
      → (t : Tree F T) × (save_batch none (c ∷ cs) ≡ saved (some t))
        × (map (λ r. r.first) t.rows ≡ map (λ k. k.fit_result1) (c ∷ cs))
        × NoSecond t.rows
  unfolding save_batch
  save_batch-drops c cs e = (
    fill_all false (new_tree false) (c ∷ cs),
    rw e refl,
    fill_all-first false (new_tree false) (c ∷ cs) refl,
    fill_all-NoSecond (new_tree false) (c ∷ cs) refl,
  )
