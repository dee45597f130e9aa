-- ===== src/Toy/Generation/Sums.antt =====
-- GenerateForAddedPdf, and the number of rows that it makes.
use doo_fit.Base.{
  ℕ, ◌+◌, ◌*◌, ◌≤◌, String, Bool, false, none, some, List, [], ℤ, pos, pos_part, neg_part, All, ◌≡◌,
  refl, ap, subst, ◌∙◌, arith,
}
use doo_fit.Toy.Factory.Datasets.{RooDataSet, RooFit, ok, deref}
use doo_fit.Toy.Factory.Append as append
use doo_fit.Toy.Generation.Pdf.{Pdf, added, Pdfs, nil, cons, Double, Generator, Random, ◌>>=◌, lift}
use doo_fit.Toy.Generation.Direct.{with_protos, proto_set}
use doo_fit.Toy.Generation.Yields.{Loop, Context}
use doo_fit.Toy.Generation.Decompose.{
  generate_part, context, loop_start, generate_for_pdf, generate_for_added_pdf,
}
use doo_fit.Toy.Generation.Exact.{Exact}
use doo_fit.Toy.Generation.Rounding.{IsHalf}
use doo_fit.Toy.Generation.Shares.{
  part_yields, part_yields-nil, part_yields-cons, total, NotNegative,
}
use doo_fit.Toy.Generation.Laws.{Laws, Filled, >>=-ok}
use doo_fit.Toy.Generation.Directly.{Generates}
use doo_fit.Toy.Generation.Plain.{AllPlain}
use doo_fit.Toy.Generation.Products.{product-rows}
use doo_fit.Toy.Generation.Rounds.{fixed, generate_part_lem}

module _ {D Row : Type 0} (double : Double D) (roo : RooFit Row) (gen : Generator D Row)
    (proto_sample : Pdf D → (section : String) (size : ℤ) → Random (RooDataSet Row))
    (rows : append.Laws roo) (laws : Laws roo rows gen) (exact : Exact double) where
  open double use {zero_}
  open gen use {expected_events}
  open rows use {Fits}
  open exact use {value, value_zero}

  abbrev loop_at : RooDataSet Row → List D → D → ℤ → D → Loop D Row
  loop_at d coefs sum position lost = record {
    sampled = some d;
    coefs = coefs;
    sum_coef = sum;
    proto_pos = position;
    lost = lost;
  }

  -- The rows that are made and what is lost are the yields.
  generate_for_added_pdf_lem :
      (cs : List String) (c : Context D Row) (ps : Pdfs D) (n k : ℕ) (d : RooDataSet Row)
      (coefs : List D) (sum : D) (position : ℤ) (lost : D) (ys : List D)
      → AllPlain gen.observables cs ps
      → part_yields double expected_events (fixed c) ps coefs sum ≡ ok ys
      → All (NotNegative exact) ys
      → IsHalf double exact lost
      → Filled Fits cs n d
      → (d' : RooDataSet Row) × (n' k' : ℕ) × (lost' : D) × (generate_for_added_pdf double roo gen
            [] proto_sample
            (fixed c)
            ps
            (loop_at d coefs sum position lost)
            k
          ≡ ok (some d', k'))
        × Filled Fits cs n' d'
        × IsHalf double exact lost'
        × (1000 * n' + pos_part (value lost') + neg_part (value lost)
            ≡ 1000 * n + total exact ys + neg_part (value lost') + pos_part (value lost))
  unfolding generate_for_added_pdf total
  generate_for_added_pdf_lem cs c nil n k d coefs sum position lost ys plain yields nonneg half
        filled =
      (
        d,
        n,
        k,
        lost,
        refl,
        filled,
        half,
        omega (
          arith,
          ap (total exact) (part_yields-nil double expected_events (fixed c) coefs sum ys yields),
        ),
      )
  generate_for_added_pdf_lem cs c (cons p ps) n k d coefs sum position lost ys (plain, same, others)
        yields nonneg half filled =
      let (x, ys', next, rest, first) =
        part_yields-cons double expected_events (fixed c) p ps coefs sum ys yields in
      let nonneg' = rw first at nonneg in
      let (e, m, k', lost', made, filled', half', balance) =
        generate_part_lem double roo gen proto_sample rows laws exact cs c p n k
          (loop_at d coefs sum position lost) x.0 x.1 x.2
          (subst (λ cs. Generates double roo gen proto_sample rows laws cs p) same
            (λ y k. product-rows double roo gen proto_sample rows laws p y k plain))
          next nonneg'.0 half filled in
      let (e', n', k'', lost'', made', filled'', half'', balance') =
        generate_for_added_pdf_lem cs c ps (n + m) k' e x.1 x.2 position lost' ys' others rest
          nonneg'.1 half' filled' in
      (
        e',
        n',
        k'',
        lost'',
        rw (made, ◌>>=◌) made',
        filled'',
        half'',
        omega (arith, balance, balance', ap (total exact) first),
      )

  abbrev pub context_of : String → Bool → List D → Pdfs D → D → Context D Row
  context_of n must coefs ps y =
      context double roo gen [] proto_sample (added n must coefs ps) must coefs y false none

  added_round :
      (c : Context D Row) (p : Pdf D) (ps : Pdfs D) (l l' : Loop D Row) (k k' : ℕ)
      → generate_part double roo gen [] proto_sample
          (fixed c)
          p
          (generate_for_pdf double roo gen [] proto_sample p)
          l
          k
        ≡ ok (l', k')
      → generate_for_added_pdf double roo gen [] proto_sample (fixed c) (cons p ps) l k
        ≡ generate_for_added_pdf double roo gen [] proto_sample (fixed c) ps l' k'
  unfolding generate_for_added_pdf
  added_round c p ps l l' k k' made = rw (made, ◌>>=◌) refl

  added_lem :
      (n : String) (must : Bool) (coefs : List D) (ps : Pdfs D) (y : D) (k k' : ℕ)
      (d : RooDataSet Row)
      → generate_for_added_pdf double roo gen [] proto_sample
          (context_of n must coefs ps y)
          ps
          (loop_start double roo gen [] proto_sample coefs)
          k
        ≡ ok (some d, k')
      → generate_for_pdf double roo gen [] proto_sample (added n must coefs ps) y false [] k
        ≡ ok (d, k')
  unfolding generate_for_pdf with_protos proto_set
  added_lem n must coefs ps y k k' d made =
      >>=-ok
        (generate_for_added_pdf double roo gen [] proto_sample (context_of n must coefs ps y) ps
          (loop_start double roo gen [] proto_sample coefs))
        (λ d. lift (deref d)) (some d) k k' made

  -- GenerateForPdf of a RooAddPdf whose parts are PDFs that are generated directly, or products of
  -- such, with the same columns: it returns a data set with these columns, and the number of its rows is
  -- within one half of the sum of the yields of the parts, so it is that sum where it is an integer. The
  -- size is not drawn, there is no proto data, every part gets a yield that is not negative, doubles
  -- compute exactly, and no number is too large for an int.
  pub added-nearest :
      (cs : List String) (n : String) (must_be_extended : Bool) (coefs : List D) (p : Pdf D)
      (ps : Pdfs D) (y : D) (k : ℕ) (ys : List D)
      → AllPlain gen.observables cs (cons p ps)
      → part_yields double expected_events
          (context_of n must_be_extended coefs (cons p ps) y)
          (cons p ps)
          coefs
          zero_
        ≡ ok ys
      → All (NotNegative exact) ys
      → (d : RooDataSet Row) × (m k' : ℕ) × (generate_for_pdf double roo gen [] proto_sample
            (added n must_be_extended coefs (cons p ps))
            y
            false
            []
            k
          ≡ ok (d, k'))
        × Filled Fits cs m d
        × (1000 * m ≤ total exact ys + 500)
        × (total exact ys ≤ 1000 * m + 500)
  unfolding context total
  added-nearest cs n must coefs p ps y k ys (plain, same, others) yields nonneg =
      let c = context_of n must coefs (cons p ps) y in
      let (x, ys', next, rest, first) =
        part_yields-cons double expected_events c p ps coefs zero_ ys yields in
      let nonneg' = rw first at nonneg in
      let start = loop_start double roo gen [] proto_sample coefs in
      let (e, m, k', lost, made, filled, half, balance) =
        generate_part_lem double roo gen proto_sample rows laws exact cs c p 0 k start x.0 x.1 x.2
          (subst (λ cs. Generates double roo gen proto_sample rows laws cs p) same
            (λ y k. product-rows double roo gen proto_sample rows laws p y k plain))
          next nonneg'.0 (rw value_zero (omega arith)) refl in
      let (e', n', k'', lost', made', filled', half', balance') =
        generate_for_added_pdf_lem cs c ps (0 + m) k' e x.1 x.2 (pos 0) lost ys' others rest
          nonneg'.1 half filled in
      (
        e',
        n',
        k'',
        added_lem n must coefs (cons p ps) y k k'' e'
            (added_round c p ps start (loop_at e x.1 x.2 (pos 0) lost) k k' made ∙ made'),
        filled',
        omega (
          arith,
          balance,
          balance',
          half',
          ap (total exact) first,
          ap pos_part value_zero,
          ap neg_part value_zero,
        ),
        omega (
          arith,
          balance,
          balance',
          half',
          ap (total exact) first,
          ap pos_part value_zero,
          ap neg_part value_zero,
        ),
      )
