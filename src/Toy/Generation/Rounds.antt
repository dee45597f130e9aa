-- ===== src/Toy/Generation/Rounds.antt =====
-- One round of the loop of GenerateForAddedPdf.
use native.Mathlib.Nat.{zero-add}
use doo_fit.Base.{
  ℕ, suc, ◌+◌, ◌*◌, String, false, Option, none, some, List, [], ℤ, pos_part, neg_part, ◌≡◌, refl,
  ap, arith,
}
use doo_fit.Toy.Factory.Datasets.{RooDataSet, RooFit, ok}
use doo_fit.Toy.Factory.Append as append
use doo_fit.Toy.Generation.Pdf.{Pdf, Double, Generator, Random, ◌>>=◌, lift, return}
use doo_fit.Toy.Generation.Yields.{Loop, Context, next_coef, sub_yield, sub_protos}
use doo_fit.Toy.Generation.Decompose.{drawn_yield, append_part, generate_part, generate_for_pdf}
use doo_fit.Toy.Generation.Exact.{Exact}
use doo_fit.Toy.Generation.Rounding.{IsHalf, correct_rounding-Corrected}
use doo_fit.Toy.Generation.Shares.{NotNegative}
use doo_fit.Toy.Generation.Laws.{Laws, Filled}
use doo_fit.Toy.Generation.Appends.{append_datasets-Filled}
use doo_fit.Toy.Generation.Directly.{Generates}

-- With sizes that are not drawn, and no proto data.
abbrev pub fixed : {D Row : Type 0} → Context D Row → Context D Row
fixed c = record c { size_drawn = false; proto = none }

module _ {D Row : Type 0} (double : Double D) (roo : RooFit Row) (gen : Generator D Row)
    (proto_sample : Pdf D → (section : String) (size : ℤ) → Random (RooDataSet Row))
    (rows : append.Laws roo) (laws : Laws roo rows gen) (exact : Exact double) where
  open double use {iround}
  open gen use {expected_events}
  open rows use {Fits}
  open laws use {integer_le}
  open exact use {value, in_range}

  -- The data so far, with a number of rows.
  abbrev Held : List String → ℕ → Option (RooDataSet Row) → Type 0
  Held cs n none = n ≡ 0
  Held cs n (some d) = Filled Fits cs n d

  append_part_lem :
      (cs : List String) (n m k : ℕ) (o : Option (RooDataSet Row)) (d : RooDataSet Row)
      → Held cs n o
      → Filled Fits cs m d
      → (e : RooDataSet Row) × (k' : ℕ) × (append_part double roo gen [] proto_sample o d k
          ≡ ok (some e, k'))
        × Filled Fits cs (n + m) e
  unfolding append_part
  append_part_lem cs n m k none d held filled = (d, k, refl, rw held (rw zero-add filled))
  append_part_lem cs n m k (some a) d held filled =
      let (e, appended, full) =
        append_datasets-Filled roo rows (gen.integer k) cs n m a d (integer_le k) held filled in
      (e, suc k, ap (λ r. (lift r >>= λ x. return (some x)) (suc k)) appended, full)

  -- One round of the loop.
  pub generate_part_lem :
      (cs : List String) (c : Context D Row) (p : Pdf D) (n k : ℕ) (l : Loop D Row) (coef : D)
      (coefs : List D) (sum : D)
      → Generates double roo gen proto_sample rows laws cs p
      → next_coef double expected_events (fixed c) p l.coefs l.sum_coef ≡ ok (coef, coefs, sum)
      → NotNegative exact (sub_yield double (fixed c) coef)
      → IsHalf double exact l.lost
      → Held cs n l.sampled
      → (d : RooDataSet Row) × (m k' : ℕ) × (lost : D) × (generate_part double roo gen []
            proto_sample
            (fixed c)
            p
            (generate_for_pdf double roo gen [] proto_sample p)
            l
            k
          ≡ ok (
            record {
              sampled = some d;
              coefs = coefs;
              sum_coef = sum;
              proto_pos = l.proto_pos;
              lost = lost;
            },
            k',
          ))
        × Filled Fits cs (n + m) d
        × IsHalf double exact lost
        × (1000 * m + pos_part (value lost) + neg_part (value l.lost)
            ≡ pos_part (value (sub_yield double (fixed c) coef))
              + neg_part (value lost)
              + pos_part (value l.lost))
  unfolding generate_part drawn_yield sub_protos
  generate_part_lem cs c p n k l coef coefs sum makes next nonneg half held =
      let y = sub_yield double (fixed c) coef in
      let (corrected, right, both) = correct_rounding-Corrected double exact y l.lost nonneg half in
      let (balance, small) = both in
      let (e, k', made, filled) = makes corrected.0 k (in_range corrected.0) in
      let (d, k'', appended, full) =
        append_part_lem cs n (pos_part (iround corrected.0)) k' l.sampled e held filled in
      (
        d,
        pos_part (iround corrected.0),
        k'',
        corrected.1,
        rw (next, ◌>>=◌) (rw (right, ◌>>=◌) (rw (made, ◌>>=◌) (rw (appended, ◌>>=◌) refl))),
        full,
        small,
        omega (arith, balance),
      )
