-- ===== src/Toy/Generation/GenerateTests.antt =====
-- Runs of Generate, and the theorems at concrete inputs.
use doo_fit.Base.{
  ℕ, suc, ◌+◌, ◌*◌, ◌%◌, ◌/◌, String, eq_iff, true, none, some, List, [], ◌∷◌, ◌++◌, length, All, ℤ,
  pos, ltb_ℤ, inl, inr, ◌≡◌, ◌≢◌, refl, ap, arith,
}
use doo_fit.Config.CommaSeparated.{Text}
use doo_fit.Config.Distribution.{DiscreteProbabilityDistribution}
use doo_fit.Toy.Factory.Datasets.{
  RooDataSet, RooFit, ok, throw, terminated, not_generating_data, pdf_not_set, deletes_own_columns,
}
use doo_fit.Toy.Factory.Append as append
use doo_fit.Toy.Factory.Discrete.{
  category, Observable, RooVariables, Values, find_observable, walk, generate_discrete_sample,
}
use doo_fit.Toy.Generation.Pdf.{Pdf, direct, name_of, Generator, Random, lift}
use doo_fit.Toy.Generation.Laws.{Laws}
use doo_fit.Toy.Generation.Plain.{columns_of, IsPlain}
use doo_fit.Toy.Generation.Generate.{
  Order, pdf_data, discrete_data, combine, add_discrete, save_parameters, generate,
}
use doo_fit.Toy.Generation.Complete.{settings, generate_deletes}
use doo_fit.Toy.Generation.Draws.{IsAlwaysDrawn}
use doo_fit.Toy.Generation.NoPdf.{no_pdf, generate-no_pdf}
use doo_fit.Toy.Generation.Tests.{thousandths, numbered, length-numbered, integer-le}

abbrev roo : RooFit (Values ℤ)
roo = record { stored = λ cs rs r. r; joined = λ a b. a ++ b; joined_columns = λ cs ds. cs ++ ds }

abbrev rows : append.Laws roo
rows = record {
  Fits = λ cs r. Unit {0};
  stored-fits = λ cs rs r f. refl;
  reorder = λ cs ds r u s f. tt;
}

-- Each observable has the number of its row.
abbrev row_of : List String → ℕ → Values ℤ
row_of [] n = []
row_of (o ∷ os) n = (o, pos n) ∷ row_of os n

abbrev rows_of : List String → List ℕ → List (Values ℤ)
rows_of os [] = []
rows_of os (n ∷ ns) = row_of os n ∷ rows_of os ns

length-rows_of : (os : List String) (ns : List ℕ) → length (rows_of os ns) ≡ length ns
length-rows_of os [] = refl
length-rows_of os (n ∷ ns) = omega (arith, length-rows_of os ns)

All-fit : (xs : List (Values ℤ)) → All (λ r. Unit {0}) xs
All-fit [] = tt
All-fit (x ∷ xs) = (tt, All-fit xs)

abbrev gen : Generator ℤ (Values ℤ)
gen = record {
  expected_events = λ p. pos 2500;
  observables = λ p. name_of p ∷ [];
  generate =
      λ n p obs size ext proto. some (record { columns = obs; rows = rows_of obs (numbered size) });
  add_category = λ c l d. d;
  poisson = λ n y. y;
  integer = λ n i. i * (n + 3) % suc i;
}

length-sample : (obs : List String) (n : ℕ) → length (rows_of obs (numbered n)) ≡ n
length-sample obs n = omega (arith, length-rows_of obs (numbered n), length-numbered n)

abbrev laws : Laws roo rows gen
laws = record {
  generate_lem = λ n p obs size h. (
    record { columns = obs; rows = rows_of obs (numbered size) },
    refl,
    (refl, length-sample obs size, All-fit (rows_of obs (numbered size))),
  );
  integer_le = integer-le;
  joined_columns_lem = λ cs ds. refl;
  Fits-joined = λ cs ds r s f g. tt;
}

abbrev no_protos : Pdf ℤ → (section : String) (size : ℤ) → Random (RooDataSet (Values ℤ))
no_protos p s n = lift (throw terminated)

abbrev spell : Text → String
spell t = "tag"

abbrev vars : RooVariables ℤ
vars = record { c_str = spell; less = ltb_ℤ; set_to = λ k n y x. x }

abbrev tag : Observable ℤ
tag = record { name = "tag"; kind = category; value = pos 0 }

-- The tag is 1 with probability 0.5, else 2.
abbrev tags : DiscreteProbabilityDistribution ℤ
tags = record { var_name = 0 ∷ []; probabilities = (pos 1000, pos 500) ∷ (pos 2000, pos 1000) ∷ [] }

abbrev uniform : (use_number : ℕ) → ℕ → ℤ
uniform n t = pos ((n + t) * 300 % 1000)

abbrev position : (use_number : ℕ) → ℕ → ℕ
position n t = (n + t) % 3

-- The PDF is always evaluated first.
abbrev order : Order
order = record { reading = true; drawing = true; generating = true; saving = true }

-- With discrete variables alone, and parameters to save.
no_pdf_run :
    generate thousandths roo gen [] no_protos vars uniform position 9
      (no_pdf (some (tag ∷ [])) (pos 2000) true (tags ∷ []) none true none order)
      0
    ≡ some (throw pdf_not_set)
unfolding generate pdf_data discrete_data generate_discrete_sample combine add_discrete
    save_parameters
no_pdf_run = refl

always : (n : ℕ) → IsAlwaysDrawn vars (uniform n) tags
unfolding walk
always n t e = ground arith

plain : IsPlain gen.observables (direct "mass")
unfolding IsPlain
plain = tt

found : find_observable "tag" (tag ∷ []) ≡ some tag
unfolding find_observable
found = refl

apart : ¬ append.Has (columns_of gen.observables (direct "mass")) "tag"
unfolding columns_of
apart h = elim h [ inl e ↦ cc ((eq_iff "mass" "tag").1 e) | inr n ↦ n ]

whole : (n : ℕ) → pos (1000 * n / 1000) ≡ pos n
whole n = ap pos (omega arith)

generate_deletes_example :
    generate thousandths roo gen [] no_protos vars uniform position 9
      (settings (direct "mass") (tag ∷ []) (pos 2500) (tags ∷ []) true order)
      0
    ≡ some (throw deletes_own_columns)
generate_deletes_example =
    generate_deletes thousandths roo gen no_protos vars uniform position order rows laws 9 0
      (direct "mass") (tag ∷ []) (pos 2500) tags [] tag [] true plain refl (found, refl, tt)
      ((λ h. h), tt) (apart, tt) always whole

generate-no_pdf_example :
    (generate thousandths roo gen [] no_protos vars uniform position 9
        (no_pdf (some (tag ∷ [])) (pos 2000) true [] none true none order)
        0
      ≡ some (throw not_generating_data))
    × (generate thousandths roo gen [] no_protos vars uniform position 9
          (no_pdf (some (tag ∷ [])) (pos 2000) true (tags ∷ []) none true (some 2) order)
          0
        ≡ some (throw pdf_not_set))
    × ((r : RooDataSet (Values ℤ) × ℕ)
        → generate thousandths roo gen [] no_protos vars uniform position 9
            (no_pdf none (pos 2000) true (tags ∷ []) none true none order)
            0
          ≢ some (ok r))
generate-no_pdf_example =
    generate-no_pdf thousandths roo gen [] no_protos vars uniform position 9 0 2 (tag ∷ []) none
      (pos 2000) true (tags ∷ []) none true none order
