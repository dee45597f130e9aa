-- ===== src/Toy/Generation/Appends.antt =====
-- AppendDatasets of data sets with the same columns.
use mathlib.Core.List.{Mem, Perm, mem-cons_self, mem-cons_of_mem, foldr}
use mathlib.Core.List.Perm
use native.Mathlib.Nat.{ℕ_set}
use doo_fit.Base.{
  ℕ, zero, suc, ◌+◌, ◌<◌, ◌≤◌, String, List, [], ◌∷◌, ◌++◌, length, All, length-append, inl, inr,
  ◌≡◌, refl, sym, ap, ◌∙◌, arith,
}
use doo_fit.Toy.Factory.Rows.{
  get_elem?-some, All-get_elem?, All-append, gather, gather-cons, mem-range_from,
}
use doo_fit.Toy.Factory.Shuffle.{range_from, new_order, new_order-perm}
use doo_fit.Toy.Factory.Datasets.{RooDataSet, RooFit, ok, append_rows, append_datasets}
use doo_fit.Toy.Factory.Append.{Laws, Has, All-contains_all, append_rows_lem, append_datasets_same}
use doo_fit.Toy.Generation.Laws.{Filled}

length-foldr : {A : Type 0} (xs : List A) → foldr (λ x n. suc n) 0 xs ≡ length xs
length-foldr [] = refl
length-foldr (x ∷ xs) = ap suc (length-foldr xs)

length-perm : {A : Type 0} {xs ys : List A} → Perm xs ys → length xs ≡ length ys
length-perm {A} {xs} {ys} p =
    sym (length-foldr xs) ∙ Perm.foldr-eq ℕ_set (λ x n. suc n) (λ x y n. refl) p 0 ∙ length-foldr ys

length-range_from : (i n : ℕ) → length (range_from i n) ≡ n
length-range_from i zero = refl
length-range_from i (suc n) = ap suc (length-range_from (suc i) n)

All-Has_cons :
    (c : String) (cs : List String) (ds : List String) → All (Has cs) ds → All (Has (c ∷ cs)) ds
All-Has_cons c cs [] a = tt
All-Has_cons c cs (d ∷ ds) a = (inr a.0, All-Has_cons c cs ds a.1)

All-Has : (cs : List String) → All (Has cs) cs
All-Has [] = tt
All-Has (c ∷ cs) = (inl refl, All-Has_cons c cs cs (All-Has cs))

module _ {Row : Type 0} (roo : RooFit Row) (rows : Laws roo) where
  open rows use {Fits}

  gather-Fits :
      (cs : List String) (xs : List Row) (is : List ℕ)
      → All (Fits cs) xs
      → ((k : ℕ) → Mem k is → k < length xs)
      → (length (gather xs is) ≡ length is) × All (Fits cs) (gather xs is)
  unfolding gather
  gather-Fits cs xs [] fit small = (refl, tt)
  gather-Fits cs xs (i ∷ is) fit small =
      let (r, e) = get_elem?-some xs i (small i mem-cons_self) in
      let (n, rest) = gather-Fits cs xs is fit (λ k h. small k (mem-cons_of_mem i h)) in
      rw (gather-cons xs i is r e) (ap suc n, (All-get_elem? (Fits cs) xs i r fit e, rest))

  pub append_datasets-Filled :
      (integer : ℕ → ℕ) (cs : List String) (n k : ℕ) (m s : RooDataSet Row)
      → ((i : ℕ) → integer i ≤ i)
      → Filled Fits cs n m
      → Filled Fits cs k s
      → (d : RooDataSet Row) × (append_datasets roo integer m s ≡ ok d) × Filled Fits cs (n + k) d
  append_datasets-Filled integer cs n k m s bound (mc, ml, mf) (sc, sl, sf) =
      let count = length m.rows + length s.rows in
      let order = new_order integer count in
      let all = length-append m.rows s.rows in
      let p = new_order-perm integer bound count in
      let small : ((j : ℕ) → Mem j order → j < length (m.rows ++ s.rows)) =
        λ j h. omega (arith, all, mem-range_from count 0 j ((Perm.mem_iff p).0 h)) in
      let fit = All-append (Fits cs) m.rows s.rows mf sf in
      let (size, fits) = gather-Fits cs (m.rows ++ s.rows) order fit small in
      (
        record { columns = cs; rows = gather (m.rows ++ s.rows) order },
        append_datasets_same roo rows integer m s (rw (mc, sc) refl)
              (rw (mc, sc) (All-contains_all cs cs (All-Has cs)))
            ∙ ap (λ c. append_rows roo m s order (record { columns = c; rows = [] })) mc
            ∙ append_rows_lem roo rows m s cs fit order [] small,
        (refl, omega (arith, size, length-perm p, length-range_from 0 count), fits),
      )
