-- ===== src/Toy/Generation/Tests.antt =====
-- Runs of GenerateForPdf with numbers in thousandths for doubles, and the theorems at concrete inputs.
use doo_fit.Base.{
  ℕ, zero, suc, ◌+◌, ◌*◌, ◌/◌, ◌%◌, ◌≤◌, ◌==◌, String, eq_iff, Bool, true, false, ◌&&◌, some, List,
  [], ◌∷◌, ◌++◌, length, All, ℤ, pos, negsuc, pos_part, neg_part, sub_ℕ, ◌+ℤ◌, ◌-ℤ◌, ltb_ℤ, inl,
  inr, ◌↔◌, ◌≡◌, refl, arith,
}
use doo_fit.Toy.Factory.Datasets.{RooDataSet, RooFit, ok, throw, terminated, datasets_not_disjoint}
use doo_fit.Toy.Factory.Append as append
use doo_fit.Toy.Factory.Append.{Has}
use doo_fit.Toy.Generation.Pdf.{
  Pdf, direct, added, product, nil, cons, name_of, Double, Generator, Random, lift,
}
use doo_fit.Toy.Generation.Exact.{Exact}
use doo_fit.Toy.Generation.Yields.{next_coef, sub_yield, sub_protos, correct_rounding}
use doo_fit.Toy.Generation.Laws.{Laws, Filled}
use doo_fit.Toy.Generation.Plain.{columns_of, IsPlain, AllPlain}
use doo_fit.Toy.Generation.Shares.{part_yields, total}
use doo_fit.Toy.Generation.Decompose.{context, generate_for_pdf}
use doo_fit.Toy.Generation.Products.{product-rows}
use doo_fit.Toy.Generation.Sums.{context_of, added-nearest}

abbrev scaled : ℤ → ℤ
scaled (pos n) = pos (1000 * n)
scaled (negsuc n) = negsuc (1000 * n + 999)

abbrev minus : ℤ → ℤ
minus a = sub_ℕ (neg_part a) (pos_part a)

abbrev nearest : ℤ → ℤ
nearest (pos n) = pos ((n + 500) / 1000)
nearest (negsuc n) = sub_ℕ 0 ((n + 501) / 1000)

abbrev same : ℤ → ℤ → Bool
same a b = pos_part a == pos_part b && neg_part a == neg_part b

-- The square root, the quotient and the products of negative numbers are not used.
abbrev pub thousandths : Double ℤ
thousandths = record {
  zero_ = pos 0;
  half = pos 500;
  one = pos 1000;
  ten = pos 10000;
  hundred = pos 100000;
  margin = pos 1050;
  of_int = scaled;
  add = λ a b. a +ℤ b;
  sub = λ a b. a -ℤ b;
  mul = λ a b. pos (pos_part a * pos_part b / 1000);
  div = λ a b. a;
  neg = minus;
  abs = λ a. pos (pos_part a + neg_part a);
  sqrt = λ a. a;
  iround = nearest;
  too_large = λ a. false;
  truncate = λ a. pos (pos_part a / 1000);
  less = ltb_ℤ;
  equal = same;
}

scaled_lem :
    (n : ℤ) → (pos_part (scaled n) ≡ 1000 * pos_part n) × (neg_part (scaled n) ≡ 1000 * neg_part n)
scaled_lem (pos n) = omega arith
scaled_lem (negsuc n) = omega arith

minus_lem : (a : ℤ) → (pos_part (minus a) ≡ neg_part a) × (neg_part (minus a) ≡ pos_part a)
minus_lem (pos n) = ground arith
minus_lem (negsuc n) = ground arith

nearest_lem :
    (a : ℤ)
    → (pos_part (nearest a) ≡ (pos_part a + 500) / 1000)
      × (neg_part (nearest a) ≡ (neg_part a + 500) / 1000)
nearest_lem (pos n) = omega arith
nearest_lem (negsuc n) = ground arith

same_refl : (a : ℤ) → same a a ≡ true
same_refl a = ground arith

same_iff : (a b : ℤ) → (same a b ≡ true) ↔ (a ≡ b)
same_iff a b = (λ h. ground arith, λ e. rw e (same_refl b))

abbrev thousandths_exact : Exact thousandths
thousandths_exact = record {
  value = λ a. a;
  value_zero = refl;
  value_half = refl;
  value_int = scaled_lem;
  value_add = λ a b. refl;
  value_sub = λ a b. refl;
  value_neg = minus_lem;
  value_abs = λ a. refl;
  equal_iff = same_iff;
  in_range = λ a. refl;
  nearest = nearest_lem;
}

-- Rows are numbers.
abbrev roo : RooFit ℕ
roo = record {
  stored = λ cs rs r. r;
  joined = λ a b. a * 100 + b;
  joined_columns = λ cs ds. cs ++ ds;
}

abbrev rows : append.Laws roo
rows = record {
  Fits = λ cs r. Unit {0};
  stored-fits = λ cs rs r f. refl;
  reorder = λ cs ds r u s f. tt;
}

-- The rows 1, 2, ... in falling order.
abbrev pub numbered : ℕ → List ℕ
numbered zero = []
numbered (suc n) = suc n ∷ numbered n

pub length-numbered : (n : ℕ) → length (numbered n) ≡ n
length-numbered zero = refl
length-numbered (suc n) = omega (arith, length-numbered n)

All-fit : (xs : List ℕ) → All (λ r. Unit {0}) xs
All-fit [] = tt
All-fit (x ∷ xs) = (tt, All-fit xs)

-- Every PDF has the observable of its name, and expects 2.5 events.
abbrev gen : Generator ℤ ℕ
gen = record {
  expected_events = λ p. pos 2500;
  observables = λ p. name_of p ∷ [];
  generate = λ n p obs size ext proto. some (record { columns = obs; rows = numbered size });
  add_category = λ c l d. d;
  poisson = λ n y. y;
  integer = λ n i. i * (n + 3) % suc i;
}

pub integer-le : (n i : ℕ) → i * (n + 3) % suc i ≤ i
integer-le n i = grind arith

abbrev laws : Laws roo rows gen
laws = record {
  generate_lem = λ n p obs size h. (
    record { columns = obs; rows = numbered size },
    refl,
    (refl, length-numbered size, All-fit (numbered size)),
  );
  integer_le = integer-le;
  joined_columns_lem = λ cs ds. refl;
  Fits-joined = λ cs ds r s f g. tt;
}

abbrev no_protos : Pdf ℤ → (section : String) (size : ℤ) → Random (RooDataSet ℕ)
no_protos p s n = lift (throw terminated)

abbrev mass : Pdf ℤ
mass = direct "mass"

abbrev time_mass : Pdf ℤ
time_mass = product "p" (cons (direct "time") (cons mass nil))

product_run :
    generate_for_pdf thousandths roo gen [] no_protos time_mass (pos 2500) false [] 0
    ≡ ok (record { columns = "time" ∷ "mass" ∷ []; rows = 303 ∷ 202 ∷ 101 ∷ [] }, 2)
unfolding generate_for_pdf
product_run = refl

-- Two parts with the yield 1.25 each.
abbrev two_masses : Pdf ℤ
two_masses = added "s" false (pos 500 ∷ []) (cons mass (cons mass nil))

sum_run :
    generate_for_pdf thousandths roo gen [] no_protos two_masses (pos 2500) false [] 0
    ≡ ok (record { columns = "mass" ∷ []; rows = 1 ∷ 1 ∷ [] }, 3)
unfolding generate_for_pdf next_coef sub_protos correct_rounding sub_yield ◌+ℤ◌ ◌-ℤ◌
sum_run = refl

-- The factor that is generated directly has three rows, the sum has two.
product_of_sum_run :
    generate_for_pdf thousandths roo gen [] no_protos
      (product "p" (cons (direct "time") (cons two_masses nil)))
      (pos 2500)
      false
      []
      0
    ≡ throw datasets_not_disjoint
unfolding generate_for_pdf next_coef sub_protos correct_rounding sub_yield ◌+ℤ◌ ◌-ℤ◌
product_of_sum_run = refl

time_mass-IsPlain : IsPlain gen.observables time_mass
unfolding IsPlain columns_of
time_mass-IsPlain =
    (tt, (tt, ((λ h. elim h [ inl e ↦ cc ((eq_iff "time" "mass").1 e) | inr n ↦ n ]), tt), tt))

masses-AllPlain : AllPlain gen.observables ("mass" ∷ []) (cons mass (cons mass nil))
unfolding IsPlain columns_of
masses-AllPlain = (tt, refl, (tt, refl, tt))

product-rows_example :
    (d : RooDataSet ℕ) × (k' : ℕ) × (generate_for_pdf thousandths roo gen [] no_protos time_mass
        (pos 2500)
        false
        []
        0
      ≡ ok (d, k'))
    × Filled rows.Fits (columns_of gen.observables time_mass) 3 d
product-rows_example =
    product-rows thousandths roo gen no_protos rows laws time_mass (pos 2500) 0 time_mass-IsPlain
      refl

masses_yields :
    part_yields thousandths gen.expected_events
      (context_of thousandths roo gen no_protos rows laws thousandths_exact "s" false
        (pos 500 ∷ [])
        (cons mass (cons mass nil))
        (pos 2500))
      (cons mass (cons mass nil))
      (pos 500 ∷ [])
      (pos 0)
    ≡ ok (pos 1250 ∷ pos 1250 ∷ [])
unfolding part_yields context next_coef sub_yield ◌+ℤ◌ ◌-ℤ◌
masses_yields = refl

added-nearest_example :
    (d : RooDataSet ℕ) × (m k' : ℕ) × (generate_for_pdf thousandths roo gen [] no_protos two_masses
        (pos 2500)
        false
        []
        0
      ≡ ok (d, k'))
    × Filled rows.Fits ("mass" ∷ []) m d
    × (1000 * m ≤ total thousandths_exact (pos 1250 ∷ pos 1250 ∷ []) + 500)
    × (total thousandths_exact (pos 1250 ∷ pos 1250 ∷ []) ≤ 1000 * m + 500)
added-nearest_example =
    added-nearest thousandths roo gen no_protos rows laws thousandths_exact ("mass" ∷ []) "s" false
      (pos 500 ∷ []) mass (cons mass nil) (pos 2500) 0 (pos 1250 ∷ pos 1250 ∷ []) masses-AllPlain
      masses_yields (refl, (refl, tt))
