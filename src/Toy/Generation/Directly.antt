-- ===== src/Toy/Generation/Directly.antt =====
-- GenerateForPdf for a PDF that is generated directly.
use doo_fit.Base.{
  ℕ, zero, suc, String, Bool, ◌&&◌, true, false, none, List, [], ◌∷◌, ◌++◌, ℤ, pos, negsuc,
  pos_part, ltb_ℤ, ◌≡◌, refl, ap, arith,
}
use doo_fit.Toy.Study.Saving.{is_empty}
use doo_fit.Toy.Factory.Datasets.{RooDataSet, RooFit, ok}
use doo_fit.Toy.Factory.Append as append
use doo_fit.Toy.Factory.Append.{Has}
use doo_fit.Toy.Generation.Pdf.{Pdf, direct, Double, Generator, Random, lift, return}
use doo_fit.Toy.Generation.Direct.{
  add_proto_columns, generated, remove, sample, with_protos, generate_directly,
}
use doo_fit.Toy.Generation.Decompose.{generate_for_pdf}
use doo_fit.Toy.Generation.Laws.{Laws, Filled, >>=-ok}

remove-none : (cs : List String) → remove cs [] ≡ cs
unfolding remove
remove-none [] = refl
remove-none (c ∷ cs) = ap (λ ds. c ∷ ds) (remove-none cs)

append-none : {A : Type 0} (xs : List A) → xs ++ [] ≡ xs
append-none [] = refl
append-none (x ∷ xs) = ap (λ l. x ∷ l) (append-none xs)

and-false : (b : Bool) → b && false ≡ false
and-false true = refl
and-false false = refl

zero-lt : (n : ℕ) → ltb_ℤ (pos 0) (pos (suc n)) ≡ true
zero-lt n = ground arith

zero-not-lt : (n : ℕ) → ltb_ℤ (pos 0) (negsuc n) ≡ false
zero-not-lt n = ground arith

module _ {D Row : Type 0} (double : Double D) (roo : RooFit Row) (gen : Generator D Row)
    (proto_sample : Pdf D → (section : String) (size : ℤ) → Random (RooDataSet Row))
    (rows : append.Laws roo) (laws : Laws roo rows gen) where
  open double use {iround, too_large}
  open gen use {observables}
  open rows use {Fits}
  open laws use {generate_lem}

  -- A data set for a yield that is not too large, with the yield rounded, or no row where that is not positive.
  abbrev pub Generates : List String → Pdf D → Type 0
  Generates cs p =
      (y : D) (k : ℕ)
      → too_large y ≡ false
      → (d : RooDataSet Row) × (k' : ℕ) × (generate_for_pdf double roo gen [] proto_sample p y false
            [] k
          ≡ ok (d, k'))
        × Filled Fits cs (pos_part (iround y)) d

  sample_lem :
      (p : Pdf D) (obs : List String) (size : ℤ) (k : ℕ)
      → (d : RooDataSet Row) × (k' : ℕ) × (sample double roo gen [] proto_sample p obs size false
            none k
          ≡ ok (d, k'))
        × Filled Fits obs (pos_part size) d
  unfolding sample
  sample_lem p obs (pos zero) k = (
    record { columns = obs ++ []; rows = [] },
    k,
    rw (and-false (is_empty obs)) refl,
    (append-none obs, refl, tt),
  )
  sample_lem p obs (pos (suc n)) k =
      let (d, e, filled) = generate_lem k p obs (suc n) (omega arith) in
      (
        d,
        suc k,
        rw (and-false (is_empty obs), zero-lt n) (ap (λ o. lift (generated o) (suc k)) e),
        filled,
      )
  sample_lem p obs (negsuc n) k = (
    record { columns = obs ++ []; rows = [] },
    k,
    rw (and-false (is_empty obs), zero-not-lt n) refl,
    (append-none obs, refl, tt),
  )

  pub direct-Generates : (n : String) → Generates (observables (direct n)) (direct n)
  unfolding generate_for_pdf with_protos generate_directly
  direct-Generates n y k int =
      let (d, k', e, filled) = sample_lem (direct n) (observables (direct n)) (iround y) k in
      (
        d,
        k',
        rw (remove-none (observables (direct n)), int)
            (>>=-ok
              (sample double roo gen [] proto_sample (direct n) (observables (direct n)) (iround y)
                false none)
              (λ d. return (add_proto_columns double roo gen [] proto_sample none d)) d k k' e),
        filled,
      )
