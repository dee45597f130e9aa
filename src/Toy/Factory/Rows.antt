-- ===== src/Toy/Factory/Rows.antt =====
-- The rows that AppendDatasets finds by their numbers.
use mathlib.Core.List.{Mem, Perm, eq-or-mem_of_mem-cons, filter_map, not-mem-nil, append_assoc}
use mathlib.Core.List.Perm
use mathlib.Core.Logic.Or
use native.Mathlib.Bridge.{le_prop}
use doo_fit.Base.{
  ℕ, zero, suc, ◌+◌, ◌-◌, ◌<◌, ltb, some, List, [], ◌∷◌, ◌++◌, length, get_elem?, All, Bool-cases,
  length-append, inl, inr, ◌≡◌, refl, ap, ◌∙◌, subst, arith,
}
use doo_fit.Toy.Factory.Shuffle.{range_from}
use doo_fit.Toy.Factory.Datasets.{deref, RooDataSet, drawn}

module _ {Row : Type 0} where
  get_elem?_append_left :
      (xs ys : List Row) (i : ℕ) → i < length xs → get_elem? (xs ++ ys) i ≡ get_elem? xs i
  get_elem?_append_left [] ys i h = absurd (omega arith)
  get_elem?_append_left (x ∷ xs) ys zero h = refl
  get_elem?_append_left (x ∷ xs) ys (suc i) h = get_elem?_append_left xs ys i (omega arith)

  get_elem?_append_right :
      (xs ys : List Row) (i : ℕ)
      → ¬ (i < length xs)
      → get_elem? (xs ++ ys) i ≡ get_elem? ys (i - length xs)
  get_elem?_append_right [] ys i h = ap (get_elem? ys) (omega arith)
  get_elem?_append_right (x ∷ xs) ys zero h = absurd (h (omega arith))
  get_elem?_append_right (x ∷ xs) ys (suc i) h =
      get_elem?_append_right xs ys i (λ k. h (omega arith)) ∙ ap (get_elem? ys) (omega arith)

  pub drawn-append :
      (m s : RooDataSet Row) (i : ℕ) → drawn m s i ≡ deref (get_elem? (m.rows ++ s.rows) i)
  unfolding drawn
  drawn-append m s i = elim (Bool-cases (ltb i (length m.rows))) [
    | inl t ↦ rw (t, get_elem?_append_left m.rows s.rows i (ground arith)) refl
    | inr t ↦ rw (t, get_elem?_append_right m.rows s.rows i (λ h. ground arith)) refl
  ]

  pub get_elem?-some :
      (xs : List Row) (i : ℕ) → i < length xs → (r : Row) × (get_elem? xs i ≡ some r)
  get_elem?-some [] i h = absurd (omega arith)
  get_elem?-some (x ∷ xs) zero h = (x, refl)
  get_elem?-some (x ∷ xs) (suc i) h = get_elem?-some xs i (omega arith)

  pub All-get_elem? {κ} :
      (P : Row → Type κ) (xs : List Row) (i : ℕ) (r : Row)
      → All P xs
      → get_elem? xs i ≡ some r
      → P r
  All-get_elem? P [] i r a e = cc
  All-get_elem? P (x ∷ xs) zero r a e = subst P (cc) a.0
  All-get_elem? P (x ∷ xs) (suc i) r a e = All-get_elem? P xs i r a.1 e

  pub All-append {κ} :
      (P : Row → Type κ) (xs ys : List Row) → All P xs → All P ys → All P (xs ++ ys)
  All-append P [] ys a b = b
  All-append P (x ∷ xs) ys a b = (a.0, All-append P xs ys a.1 b)

  pub All-map {κ} :
      (P Q : Row → Type κ) (xs : List Row) → ((r : Row) → P r → Q r) → All P xs → All Q xs
  All-map P Q [] f a = tt
  All-map P Q (x ∷ xs) f a = (f x a.0, All-map P Q xs f a.1)

  -- The rows with the given numbers.
  unfoldable pub gather : List Row → List ℕ → List Row
  unfolding filter_map
  gather xs is = filter_map (get_elem? xs) is

  pub gather-cons :
      (xs : List Row) (i : ℕ) (is : List ℕ) (r : Row)
      → get_elem? xs i ≡ some r
      → gather xs (i ∷ is) ≡ r ∷ gather xs is
  unfolding gather
  gather-cons xs i is r e = rw e refl

  get_elem?_end :
      (pre : List Row) (x : Row) (xs : List Row) → get_elem? (pre ++ x ∷ xs) (length pre) ≡ some x
  get_elem?_end [] x xs = refl
  get_elem?_end (p ∷ pre) x xs = get_elem?_end pre x xs

  pub gather-range_from :
      (xs pre : List Row) → gather (pre ++ xs) (range_from (length pre) (length xs)) ≡ xs
  unfolding gather
  gather-range_from [] pre = refl
  gather-range_from (x ∷ xs) pre =
      let one_more : length (pre ++ (x ∷ [])) ≡ suc (length pre) =
        omega (arith, length-append pre (x ∷ [])) in
      let rest =
        rw (append_assoc pre (x ∷ []) xs, one_more) at (gather-range_from xs (pre ++ (x ∷ []))) in
      rw (get_elem?_end pre x xs) (ap (◌∷◌ x) rest)

pub gather-perm :
    {Row : Type 0} (xs : List Row) {is js : List ℕ}
    → Perm is js
    → Perm (gather xs is) (gather xs js)
unfolding gather
gather-perm xs p = Perm.filter_map (get_elem? xs) p

pub mem-range_from : (n i k : ℕ) → Mem k (range_from i n) → k < i + n
mem-range_from zero i k m = absurd (not-mem-nil m)
mem-range_from (suc n) i k m =
    Or.elim le_prop (eq-or-mem_of_mem-cons m) (λ e. omega (arith, e))
      (λ h. omega (arith, mem-range_from n (suc i) k h))
