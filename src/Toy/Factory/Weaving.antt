-- ===== src/Toy/Factory/Weaving.antt =====
-- The rows of MixMergeDatasets: the slave's at the chosen positions, the master's at the others.
use mathlib.Core.List.{append_assoc, append-nil}
use doo_fit.Base.{
  String, ℕ, suc, true, false, some, List, [], ◌∷◌, ◌++◌, length, get_elem?, All, if◌then◌else◌,
  Bool-cases, length-append, inl, inr, ◌≡◌, refl, sym, ap, ◌∙◌, arith,
}
use doo_fit.Toy.Factory.Datasets.{ok, RooDataSet, RooFit, add, taken, mixed_row, mix_rows}
use doo_fit.Toy.Factory.Append.{Laws}
use doo_fit.Toy.Factory.Positions.{count}

module _ {Row : Type 0} where
  -- The rows at the chosen positions, from position `i` on.
  abbrev chosen_rows : List ℕ → ℕ → List Row → List Row
  chosen_rows ps i [] = []
  chosen_rows ps i (x ∷ xs) =
      let rest = chosen_rows ps (suc i) xs in if taken ps i then x ∷ rest else rest

  -- The rows at the other positions.
  abbrev kept_rows : List ℕ → ℕ → List Row → List Row
  kept_rows ps i [] = []
  kept_rows ps i (x ∷ xs) =
      let rest = kept_rows ps (suc i) xs in if taken ps i then rest else x ∷ rest

  -- As many rows as the master has: the slave's, in order, at the chosen positions, and the master's
  -- at the others.
  abbrev pub Mixed : List ℕ → RooDataSet Row → RooDataSet Row → RooDataSet Row → Type 0
  Mixed ps m s d =
      (d.columns ≡ m.columns)
      × (length d.rows ≡ length m.rows)
      × (chosen_rows ps 0 d.rows ≡ s.rows)
      × (kept_rows ps 0 d.rows ≡ kept_rows ps 0 m.rows)

  pub get_elem?_end :
      (pre : List Row) (x : Row) (xs : List Row) → get_elem? (pre ++ x ∷ xs) (length pre) ≡ some x
  get_elem?_end [] x xs = refl
  get_elem?_end (p ∷ pre) x xs = get_elem?_end pre x xs

  mixed_row_slave :
      (ps : List ℕ) (m s : RooDataSet Row) (i k : ℕ) (sp ss : List Row) (y : Row)
      → taken ps i ≡ true
      → s.rows ≡ sp ++ y ∷ ss
      → length sp ≡ k
      → mixed_row ps m s i k ≡ ok y
  unfolding mixed_row
  mixed_row_slave ps m s i k sp ss y t e l = rw (t, e, ← l, get_elem?_end sp y ss) refl

  mixed_row_master :
      (ps : List ℕ) (m s : RooDataSet Row) (i k : ℕ) (pm ms : List Row) (x : Row)
      → taken ps i ≡ false
      → m.rows ≡ pm ++ x ∷ ms
      → length pm ≡ i
      → mixed_row ps m s i k ≡ ok x
  unfolding mixed_row
  mixed_row_master ps m s i k pm ms x t e l = rw (t, e, ← l, get_elem?_end pm x ms) refl

  snoc_lem : (pre xs all : List Row) (x : Row) → all ≡ pre ++ x ∷ xs → all ≡ (pre ++ (x ∷ [])) ++ xs
  snoc_lem pre xs all x e = e ∙ sym (append_assoc pre (x ∷ []) xs)

  length-snoc :
      (pre : List Row) (x : Row) (i : ℕ) → length pre ≡ i → length (pre ++ (x ∷ [])) ≡ suc i
  length-snoc pre x i e = omega (arith, length-append pre (x ∷ []))

module _ {Row : Type 0} (roo : RooFit Row) (laws : Laws roo) where
  open laws use {Fits, stored-fits}

  mix_rows_step :
      (ps : List ℕ) (m s : RooDataSet Row) (n i k : ℕ) (cs : List String) (rs : List Row) (r : Row)
      → mixed_row ps m s i k ≡ ok r
      → Fits cs r
      → mix_rows roo ps m s (suc n) i k (record { columns = cs; rows = rs })
        ≡ mix_rows roo ps m s n
            (suc i)
            (if taken ps i then suc k else k)
            (record { columns = cs; rows = rs ++ (r ∷ []) })
  unfolding mix_rows add
  mix_rows_step ps m s n i k cs rs r e f = rw (e, stored-fits cs rs r f) refl

  -- What the loop adds from position `i` on.
  abbrev Woven :
      List ℕ
      → RooDataSet Row
      → RooDataSet Row
      → List String
      → (i k : ℕ) → (ms ss rs : List Row) → Type 0
  Woven ps m s cs i k ms ss rs =
      (ws : List Row) × (mix_rows roo ps m s (length ms) i k (record { columns = cs; rows = rs })
        ≡ ok (record { columns = cs; rows = rs ++ ws }))
      × (length ws ≡ length ms)
      × (chosen_rows ps i ws ≡ ss)
      × (kept_rows ps i ws ≡ kept_rows ps i ms)

  module _ (ps : List ℕ) (m s : RooDataSet Row) (cs : List String) where
    weave_slave :
        (i k : ℕ) (x : Row) (ms ss rs : List Row) (y : Row)
        → taken ps i ≡ true
        → mixed_row ps m s i k ≡ ok y
        → Fits cs y
        → Woven ps m s cs (suc i) (suc k) ms ss (rs ++ (y ∷ []))
        → Woven ps m s cs i k (x ∷ ms) (y ∷ ss) rs
    weave_slave i k x ms ss rs y t e f (ws, run, l, c, r) = (
      y ∷ ws,
      mix_rows_step ps m s (length ms) i k cs rs y e f
          ∙ rw t (
              run ∙ ap (λ l. ok (record { columns = cs; rows = l })) (append_assoc rs (y ∷ []) ws)),
      ap suc l,
      rw t (ap (◌∷◌ y) c),
      rw t r,
    )

    weave_master :
        (i k : ℕ) (x : Row) (ms ss rs : List Row)
        → taken ps i ≡ false
        → mixed_row ps m s i k ≡ ok x
        → Fits cs x
        → Woven ps m s cs (suc i) k ms ss (rs ++ (x ∷ []))
        → Woven ps m s cs i k (x ∷ ms) ss rs
    weave_master i k x ms ss rs t e f (ws, run, l, c, r) = (
      x ∷ ws,
      mix_rows_step ps m s (length ms) i k cs rs x e f
          ∙ rw t (
              run ∙ ap (λ l. ok (record { columns = cs; rows = l })) (append_assoc rs (x ∷ []) ws)),
      ap suc l,
      rw t c,
      rw t (ap (◌∷◌ x) r),
    )

    pub mix_rows-Woven :
        (ms ss pm sp rs : List Row) (i k : ℕ)
        → m.rows ≡ pm ++ ms
        → s.rows ≡ sp ++ ss
        → length pm ≡ i
        → length sp ≡ k
        → count ps i (length ms) ≡ length ss
        → All (Fits cs) ms
        → All (Fits cs) ss
        → Woven ps m s cs i k ms ss rs
    unfolding mix_rows
    mix_rows-Woven [] [] pm sp rs i k em es lm ls c fm fs = (
      [],
      ap (λ l. ok (record { columns = cs; rows = l })) (sym (append-nil rs)),
      refl,
      refl,
      refl,
    )
    mix_rows-Woven [] (y ∷ ss) pm sp rs i k em es lm ls c fm fs = absurd (omega (arith, c))
    mix_rows-Woven (x ∷ ms) [] pm sp rs i k em es lm ls c fm fs = elim (Bool-cases (taken ps i)) [
      | inl t ↦ absurd (ground arith)
      | inr t ↦ weave_master i k x ms [] rs t (mixed_row_master ps m s i k pm ms x t em lm) fm.0 (
          mix_rows-Woven ms [] (pm ++ (x ∷ [])) sp (rs ++ (x ∷ [])) (suc i) k
            (snoc_lem pm ms m.rows x em) es (length-snoc pm x i lm) ls (ground arith) fm.1 fs)
    ]
    mix_rows-Woven (x ∷ ms) (y ∷ ss) pm sp rs i k em es lm ls c fm fs =
        elim (Bool-cases (taken ps i)) [
          | inl t ↦
              weave_slave i k x ms ss rs y t (mixed_row_slave ps m s i k sp ss y t es ls) fs.0 (
                mix_rows-Woven ms ss (pm ++ (x ∷ [])) (sp ++ (y ∷ [])) (rs ++ (y ∷ [])) (suc i)
                  (suc k) (snoc_lem pm ms m.rows x em) (snoc_lem sp ss s.rows y es)
                  (length-snoc pm x i lm) (length-snoc sp y k ls) (ground arith) fm.1 fs.1)
          | inr t ↦
              weave_master i k x ms (y ∷ ss) rs t (mixed_row_master ps m s i k pm ms x t em lm) fm.0
                (mix_rows-Woven ms (y ∷ ss) (pm ++ (x ∷ [])) sp (rs ++ (x ∷ [])) (suc i) k
                  (snoc_lem pm ms m.rows x em) es (length-snoc pm x i lm) ls (ground arith) fm.1 fs)
        ]
