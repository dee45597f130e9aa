-- ===== src/Toy/Factory/Mix.antt =====
-- MixMergeDatasets, with the random positions that it draws.
use mathlib.Core.Option
use doo_fit.Base.{
  Option-cases, ℕ, ◌<◌, ◌≤◌, none, some, List, [], length, All, inl, inr, ◌≡◌, refl, ap, arith,
}
use doo_fit.Toy.Factory.Datasets.{ok, RooDataSet, RooFit, choose, mix_rows, mix_merge_datasets}
use doo_fit.Toy.Factory.Append.{Laws}
use doo_fit.Toy.Factory.Positions.{count-nil, count-le, choose-count, choose_returns}
use doo_fit.Toy.Factory.Weaving.{Mixed, mix_rows-Woven}

module _ {Row : Type 0} (roo : RooFit Row) (laws : Laws roo) where
  open laws use {Fits, stored-fits}

  mix_merge_run :
      (pos : ℕ → ℕ) (fuel : ℕ) (m s d : RooDataSet Row) (ps : List ℕ)
      → choose pos fuel 0 0 (length s.rows) [] ≡ some ps
      → mix_rows roo ps m s (length m.rows) 0 0 (record { columns = m.columns; rows = [] }) ≡ ok d
      → mix_merge_datasets roo pos fuel m s ≡ some (ok d)
  unfolding mix_merge_datasets
  mix_merge_run pos fuel m s d ps e f = rw (e, Option.map) (ap some f)

  -- If the slave has at most as many rows as the master and every position of the master is drawn
  -- within the fuel, MixMergeDatasets returns a data set with as many rows as the master: the slave's
  -- rows in order at the chosen positions, and the master's rows at the others. The rows of both fit
  -- the columns of the master, and a row that fits is added as it is.
  pub mix_merge_datasets_lem :
      (pos : ℕ → ℕ) (fuel : ℕ) (m s : RooDataSet Row)
      → ((t : ℕ) → pos t < length m.rows)
      → ((p : ℕ) → p < length m.rows → (t : ℕ) × (t < fuel) × (pos t ≡ p))
      → length s.rows ≤ length m.rows
      → All (Fits m.columns) m.rows
      → All (Fits m.columns) s.rows
      → (d : RooDataSet Row) × (ps : List ℕ) × (choose pos fuel 0 0 (length s.rows) [] ≡ some ps)
        × (mix_merge_datasets roo pos fuel m s ≡ some (ok d))
        × Mixed ps m s d
  mix_merge_datasets_lem pos fuel m s bound drawn small fm fs =
      let n = length m.rows in
      let (ps, e) =
        choose_returns pos n bound fuel 0 0 (length s.rows) [] small (count-nil 0 n)
          (λ k h. absurd (omega arith)) (λ p h. let (t, k, q) = drawn p h in (t, omega arith, q)) in
      let c =
        choose-count pos n bound fuel 0 0 (length s.rows) [] ps (count-nil 0 n) (omega arith) e in
      let (ws, run, l, ch, ke) =
        mix_rows-Woven roo laws ps m s m.columns m.rows s.rows [] [] [] 0 0 refl refl refl refl c fm
          fs in
      (
        record { columns = m.columns; rows = ws },
        ps,
        e,
        mix_merge_run pos fuel m s _ ps e run,
        (refl, l, ch, ke),
      )

  choose_hangs :
      (pos : ℕ → ℕ) (fuel size n : ℕ)
      → ((t : ℕ) → pos t < size)
      → size < n
      → choose pos fuel 0 0 n [] ≡ none
  choose_hangs pos fuel size n bound big = elim (Option-cases (choose pos fuel 0 0 n [])) [
    | inl e ↦ e
    | inr (ps, e) ↦ absurd (
        omega (
          arith,
          choose-count pos size bound fuel 0 0 n [] ps (count-nil 0 size) (omega arith) e,
          count-le ps 0 size,
        ))
  ]

  -- If the slave has more rows than the master, MixMergeDatasets does not return, whatever the random
  -- numbers and the fuel.
  mix_merge_datasets_hangs :
      (pos : ℕ → ℕ) (fuel : ℕ) (m s : RooDataSet Row)
      → ((t : ℕ) → pos t < length m.rows)
      → length m.rows < length s.rows
      → mix_merge_datasets roo pos fuel m s ≡ none
  unfolding mix_merge_datasets
  mix_merge_datasets_hangs pos fuel m s bound big =
      rw (choose_hangs pos fuel (length m.rows) (length s.rows) bound big, Option.map) refl
