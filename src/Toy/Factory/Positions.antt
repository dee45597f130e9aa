-- ===== src/Toy/Factory/Positions.antt =====
-- The random positions that MixMergeDatasets chooses.
use doo_fit.Base.{
  ℕ, zero, suc, ◌+◌, ◌<◌, ◌≤◌, ltb, ◌==◌, ==_iff, true, false, some, List, [], ◌∷◌, if◌then◌else◌,
  Bool-cases, inl, inr, ◌≡◌, refl, ap, ◌∙◌, subst, arith,
}
use doo_fit.Toy.Factory.Datasets.{taken, choose}

-- The number of chosen positions among i, i + 1, ...
abbrev pub count : List ℕ → ℕ → ℕ → ℕ
count ps i zero = 0
count ps i (suc n) = (if taken ps i then 1 else 0) + count ps (suc i) n

pub count-nil : (i n : ℕ) → count [] i n ≡ 0
unfolding taken
count-nil i zero = refl
count-nil i (suc n) = omega (arith, count-nil (suc i) n)

pub count-le : (ps : List ℕ) (i n : ℕ) → count ps i n ≤ n
count-le ps i zero = omega arith
count-le ps i (suc n) = ground (arith, count-le ps (suc i) n)

count-cons_out : (p : ℕ) (ps : List ℕ) (i n : ℕ) → p < i → count (p ∷ ps) i n ≡ count ps i n
unfolding taken
count-cons_out p ps i zero h = refl
count-cons_out p ps i (suc n) h = ground (arith, count-cons_out p ps (suc i) n)

-- A new position counts once.
count-cons :
    (p : ℕ) (ps : List ℕ) (i n : ℕ)
    → taken ps p ≡ false
    → i ≤ p
    → p < i + n
    → count (p ∷ ps) i n ≡ suc (count ps i n)
unfolding taken
count-cons p ps i zero f h k = absurd (omega arith)
count-cons p ps i (suc n) f h k = elim (Bool-cases (p == i)) [
  | inl t ↦
      let same : p ≡ i = (==_iff p i).0 t in
      let free : taken ps i ≡ false = subst (λ x. taken ps x ≡ false) same f in
      ground (arith, count-cons_out p ps (suc i) n)
  | inr t ↦ ground (arith, count-cons p ps (suc i) n)
]

-- Where all positions are chosen.
count_full : (ps : List ℕ) (i n : ℕ) → ((k : ℕ) → k < i + n → taken ps k ≡ true) → count ps i n ≡ n
count_full ps i zero all = refl
count_full ps i (suc n) all =
    rw (all i (omega arith)) (omega (arith, count_full ps (suc i) n (λ k h. all k (omega arith))))

module _ (pos : ℕ → ℕ) (size : ℕ) (bound : (t : ℕ) → pos t < size) where
  pub choose-count :
      (fuel t i n : ℕ) (ps rs : List ℕ)
      → count ps 0 size ≡ i
      → i ≤ n
      → choose pos fuel t i n ps ≡ some rs
      → count rs 0 size ≡ n
  unfolding choose
  choose-count zero t i n ps rs c h e = elim (Bool-cases (ltb i n)) [
    | inl more ↦ cc
    | inr done ↦
        let same : ps ≡ rs = ground arith in subst (λ l. count l 0 size ≡ n) same (ground arith)
  ]
  choose-count (suc fuel) t i n ps rs c h e = elim (Bool-cases (ltb i n)) [
    | inl more ↦ elim (Bool-cases (taken ps (pos t))) [
      | inl old ↦ choose-count fuel (suc t) i n ps rs c h (rw (more, old) at e)
      | inr new ↦
          choose-count fuel (suc t) (suc i) n (pos t ∷ ps) rs
            (count-cons (pos t) ps 0 size new (omega arith) (omega (arith, bound t)) ∙ ap suc c)
            (ground arith) (rw (more, new) at e)
    ]
    | inr done ↦
        let same : ps ≡ rs = ground arith in subst (λ l. count l 0 size ≡ n) same (ground arith)
  ]

  -- Enough draws choose enough positions.
  pub choose_returns :
      (fuel t i n : ℕ) (ps : List ℕ)
      → n ≤ size
      → count ps 0 size ≡ i
      → ((k : ℕ) → k < t → taken ps (pos k) ≡ true)
      → ((p : ℕ) → p < size → (k : ℕ) × (k < t + fuel) × (pos k ≡ p))
      → (rs : List ℕ) × (choose pos fuel t i n ps ≡ some rs)
  unfolding choose taken
  choose_returns zero t i n ps h c drawn all =
      let full = count_full ps 0 size (λ p small.
        let (k, below, e) = all p (omega arith) in
        subst (λ q. taken ps q ≡ true) e (drawn k (omega arith))) in
      (ps, ground arith)
  choose_returns (suc fuel) t i n ps h c drawn all = elim (Bool-cases (ltb i n)) [
    | inl more ↦ elim (Bool-cases (taken ps (pos t))) [
      | inl old ↦
          let (rs, e) =
            choose_returns fuel (suc t) i n ps h c
              (λ k below. elim (Bool-cases (k == t)) [
                | inl same ↦ ground arith
                | inr other ↦ drawn k (ground arith)
              ])
              (λ p small. let (k, below, e) = all p small in (k, omega arith, e)) in
          (rs, rw (more, old) e)
      | inr new ↦
          let (rs, e) =
            choose_returns fuel (suc t) (suc i) n (pos t ∷ ps) h
              (count-cons (pos t) ps 0 size new (omega arith) (omega (arith, bound t)) ∙ ap suc c)
              (λ k below. elim (Bool-cases (k == t)) [
                | inl same ↦ ground arith
                | inr other ↦ ground (arith, drawn k)
              ])
              (λ p small. let (k, below, e) = all p small in (k, omega arith, e)) in
          (rs, rw (more, new) e)
    ]
    | inr done ↦ (ps, rw done refl)
  ]
