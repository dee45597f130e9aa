-- ===== src/Toy/Generation/Products.antt =====
-- GenerateForPdf for products.
use mathlib.Core.List.{append_assoc, append-nil}
use doo_fit.Base.{
  ℕ, String, false, Option, none, some, List, [], ◌∷◌, ◌++◌, length, All, ℤ, pos_part, inl, inr,
  ◌≡◌, refl, sym, ap, ◌∙◌, arith,
}
use doo_fit.Toy.Factory.Datasets.{RooDataSet, RooFit, deref, ok, join_rows, merge, merge_datasets}
use doo_fit.Toy.Factory.Append as append
use doo_fit.Toy.Factory.Append.{Has}
use doo_fit.Toy.Factory.Merge.{merge_datasets_lem}
use doo_fit.Toy.Generation.Pdf.{
  Pdf, direct, extended, added, product, simultaneous, Pdfs, nil, cons, Double, Generator, Random,
  ◌>>=◌, lift, return,
}
use doo_fit.Toy.Generation.Direct.{with_protos}
use doo_fit.Toy.Generation.Decompose.{merge_part, generate_for_pdf, generate_for_product_pdf}
use doo_fit.Toy.Generation.Laws.{Laws, Filled, >>=-ok}
use doo_fit.Toy.Generation.Plain.{columns_of, columns_of_all, IsPlain, ArePlain}
use doo_fit.Toy.Generation.Directly.{Generates, direct-Generates}

module _ {D Row : Type 0} (double : Double D) (roo : RooFit Row) (gen : Generator D Row)
    (proto_sample : Pdf D → (section : String) (size : ℤ) → Random (RooDataSet Row))
    (rows : append.Laws roo) (laws : Laws roo rows gen) where
  open double use {iround, too_large}
  open gen use {observables}
  open rows use {Fits}
  open laws use {joined_columns_lem, Fits-joined}

  join_rows_lem :
      (cs ds : List String) (n : ℕ) (xs ys : List Row)
      → length xs ≡ n
      → length ys ≡ n
      → All (Fits cs) xs
      → All (Fits ds) ys
      → (length (join_rows roo.joined xs ys) ≡ n)
        × All (Fits (cs ++ ds)) (join_rows roo.joined xs ys)
  unfolding join_rows
  join_rows_lem cs ds n [] ys e f fx fy = (e, tt)
  join_rows_lem cs ds n (x ∷ xs) [] e f fx fy = absurd (omega arith)
  join_rows_lem cs ds n (x ∷ xs) (y ∷ ys) e f fx fy =
      let (g, fit) = join_rows_lem cs ds (length xs) xs ys refl (omega arith) fx.1 fy.1 in
      (omega arith, (Fits-joined cs ds x y fx.0 fy.0, fit))

  merge-Filled :
      (cs ds : List String) (n : ℕ) (d e : RooDataSet Row)
      → All (λ c. ¬ Has cs c) ds
      → Filled Fits cs n d
      → Filled Fits ds n e
      → (m : RooDataSet Row) × (merge_datasets roo d e none ≡ ok m) × Filled Fits (cs ++ ds) n m
  unfolding merge
  merge-Filled cs ds n d e apart (dc, dl, df) (ec, el, ef) =
      let (size, fit) = join_rows_lem cs ds n d.rows e.rows dl el df ef in
      elim (merge_datasets_lem roo d e none) [
        | inl (same, free, merged) ↦
            (merge roo d e, merged, (rw (dc, ec) (joined_columns_lem cs ds), size, fit))
        | inr (why, thrown) ↦
            absurd (elim why [
              | inl other ↦ other (dl ∙ sym el)
              | inr common ↦ common (rw (dc, ec) apart)
            ])
      ]

  merge_part_lem :
      (cs ds : List String) (n k : ℕ) (d e : RooDataSet Row)
      → All (λ c. ¬ Has cs c) ds
      → Filled Fits cs n d
      → Filled Fits ds n e
      → (m : RooDataSet Row) × (merge_part double roo gen [] proto_sample [] (some d) e k
          ≡ ok (some m, k))
        × Filled Fits (cs ++ ds) n m
  unfolding merge_part
  merge_part_lem cs ds n k d e apart fd fe =
      let (m, merged, filled) = merge-Filled cs ds n d e apart fd fe in
      (m, ap (λ r. (lift r >>= λ d'. return (some d')) k) merged, filled)

  merge_part_first :
      (k : ℕ) (d : RooDataSet Row)
      → merge_part double roo gen [] proto_sample [] none d k ≡ ok (some d, k)
  unfolding merge_part
  merge_part_first k d = refl

  factor_lem :
      (p : Pdf D) (ps : Pdfs D) (y : D) (k k' : ℕ) (d : RooDataSet Row)
      (c c' : Option (RooDataSet Row))
      → generate_for_pdf double roo gen [] proto_sample p y false [] k ≡ ok (d, k')
      → merge_part double roo gen [] proto_sample [] c d k' ≡ ok (c', k')
      → generate_for_product_pdf double roo gen [] proto_sample (cons p ps) y [] c k
        ≡ generate_for_product_pdf double roo gen [] proto_sample ps y [] c' k'
  unfolding generate_for_product_pdf
  factor_lem p ps y k k' d c c' made merged = rw (made, ◌>>=◌) (rw (merged, ◌>>=◌) refl)

  product_lem :
      (n : String) (ps : Pdfs D) (y : D) (k k' : ℕ) (d : RooDataSet Row)
      → generate_for_product_pdf double roo gen [] proto_sample ps y [] none k ≡ ok (some d, k')
      → generate_for_pdf double roo gen [] proto_sample (product n ps) y false [] k ≡ ok (d, k')
  unfolding generate_for_pdf with_protos
  product_lem n ps y k k' d made =
      >>=-ok (generate_for_product_pdf double roo gen [] proto_sample ps y [] none)
        (λ d. lift (deref d)) (some d) k k' made

  mutual
    unfolding generate_for_product_pdf IsPlain ArePlain columns_of columns_of_all

    plain-Generates :
        (p : Pdf D)
        → IsPlain observables p
        → Generates double roo gen proto_sample rows laws (columns_of observables p) p
    plain-Generates (direct n) plain = direct-Generates double roo gen proto_sample rows laws n
    plain-Generates (extended n s t) plain = absurd plain
    plain-Generates (added n m cs ps) plain = absurd plain
    plain-Generates (simultaneous n c ls) plain = absurd plain
    plain-Generates (product n nil) plain = absurd plain
    plain-Generates (product n (cons p ps)) (plain, others) = λ y k int.
        let (d, k', made, filled) = plain-Generates p plain y k int in
        let (m, k'', made', full) =
          product-Filled ps (columns_of observables p) y k' d int others filled in
        (
          m,
          k'',
          product_lem n (cons p ps) y k k'' m
              (factor_lem p ps y k k' d none (some d) made (merge_part_first k' d) ∙ made'),
          full,
        )

    product-Filled :
        (ps : Pdfs D) (cs : List String) (y : D) (k : ℕ) (d : RooDataSet Row)
        → too_large y ≡ false
        → ArePlain observables cs ps
        → Filled Fits cs (pos_part (iround y)) d
        → (m : RooDataSet Row) × (k' : ℕ) × (generate_for_product_pdf double roo gen [] proto_sample
              ps y []
              (some d)
              k
            ≡ ok (some m, k'))
          × Filled Fits (cs ++ columns_of_all observables ps) (pos_part (iround y)) m
    product-Filled nil cs y k d int plain filled = (d, k, refl, rw (append-nil cs) filled)
    product-Filled (cons p ps) cs y k d int (plain, apart, others) filled =
        let (e, k', made, filled') = plain-Generates p plain y k int in
        let (m, merged, full) =
          merge_part_lem cs (columns_of observables p) (pos_part (iround y)) k' d e apart filled
            filled' in
        let (m', k'', made', full') =
          product-Filled ps (cs ++ columns_of observables p) y k' m int others full in
        (
          m',
          k'',
          factor_lem p ps y k k' e (some d) (some m) made merged ∙ made',
          rw (← append_assoc cs (columns_of observables p) (columns_of_all observables ps)) full',
        )

  -- GenerateForPdf of a PDF that is generated directly, or of a product of such whose factors have
  -- different columns, nested to any depth: it returns a data set with the columns of all the factors,
  -- in order, and with what boost::math::iround makes of the yield as the number of rows, or no row
  -- where that is not positive, also for the yield 0; every row fits the columns. The rounded yield is
  -- an int, the size is not drawn and there is no proto data.
  pub product-rows :
      (p : Pdf D) (y : D) (k : ℕ)
      → IsPlain observables p
      → too_large y ≡ false
      → (d : RooDataSet Row) × (k' : ℕ) × (generate_for_pdf double roo gen [] proto_sample p y false
            [] k
          ≡ ok (d, k'))
        × Filled Fits (columns_of observables p) (pos_part (iround y)) d
  product-rows p y k plain int = plain-Generates p plain y k int
