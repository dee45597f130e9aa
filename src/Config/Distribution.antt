-- ===== src/Config/Distribution.antt =====
-- DiscreteProbabilityDistribution. `D` stands for double; atof and the addition are parameters.
use doo_fit.Base.{
  ℕ, zero, suc, ◌*◌, ◌%◌, ◌/◌, ◌==◌, Option, none, some, List, [], ◌∷◌, length, get_elem?,
  if◌then◌else◌, Bool-cases, inl, inr, ◌⊎◌, ◌≡◌, refl, ◌∙◌, ap, arith,
}
use doo_fit.Config.CommaSeparated.{Text, Outcome, returned, terminated}

pub record Double (D : Type 0) : Type 0 where
  pub zero_ : D
  pub add : D → D → D
  pub atof : Text → D

pub record DiscreteProbabilityDistribution (D : Type 0) : Type 0 where
  pub var_name : Text
  pub probabilities : List (D × D)

-- The keys and values of a list of tokens.
abbrev pub flatten : List (Text × Text) → List Text
flatten [] = []
flatten ((k, v) ∷ kvs) = k ∷ v ∷ flatten kvs

-- An odd number of tokens is a name and pairs.
pairs_of :
    (n : ℕ) (es : List Text) → length es ≡ 2 * n → (kvs : List (Text × Text)) × (es ≡ flatten kvs)
pairs_of zero [] h = ([], refl)
pairs_of zero (e ∷ es) h = absurd omega (arith, h)
pairs_of (suc n) [] h = absurd omega (arith, h)
pairs_of (suc n) (k ∷ []) h = absurd omega (arith, h)
pairs_of (suc n) (k ∷ v ∷ es) h =
    let (kvs, e) = pairs_of n es (omega (arith, h)) in ((k, v) ∷ kvs, rw e refl)

module _ {D : Type 0} where
  abbrev pub push : D × D → Option (List (D × D)) → Option (List (D × D))
  push p none = none
  push p (some ps) = some (p ∷ ps)

  abbrev pub store :
      Text
      → Option (List (D × D))
      → DiscreteProbabilityDistribution D
      → Option (Outcome × DiscreteProbabilityDistribution D)
  store name none d = none
  store name (some ps) d = some (returned, record { var_name = name; probabilities = ps })

module _ {D : Type 0} (double : Double D) where
  -- The loop of Parse, with the cumulated probability. Where a key has no value, it reads past the
  -- end: none.
  unfoldable pub cumulate : List Text → D → Option (List (D × D))
  cumulate [] sum = some []
  cumulate (key ∷ []) sum = none
  cumulate (key ∷ value ∷ es) sum =
      let sum' = double.add sum (double.atof value) in
      push (double.atof key, sum') (cumulate es sum')

  -- Parse of the tokens; none where it reads past the end.
  unfoldable pub parse_tokens :
      List Text
      → DiscreteProbabilityDistribution D
      → Option (Outcome × DiscreteProbabilityDistribution D)
  parse_tokens [] d = some (terminated, d)
  parse_tokens (name ∷ es) d =
      if suc (length es) % 2 == 1
      then store name (cumulate es double.zero_) d
      else some (terminated, d)

  unfoldable pub parse :
      (tokens : Text → List Text)
      → Text
      → DiscreteProbabilityDistribution D
      → Option (Outcome × DiscreteProbabilityDistribution D)
  parse tokens str d = parse_tokens (tokens str) d

  -- The sum of the first n values, added from the left to `sum`.
  abbrev pub sum_first : ℕ → List (Text × Text) → D → D
  sum_first zero kvs sum = sum
  sum_first (suc n) [] sum = sum
  sum_first (suc n) ((k, v) ∷ kvs) sum = sum_first n kvs (double.add sum (double.atof v))

  abbrev pub expected : ℕ → List (Text × Text) → Option (Text × Text) → D → Option (D × D)
  expected i kvs none sum = none
  expected i kvs (some (k, v)) sum = some (double.atof k, sum_first (suc i) kvs sum)

  expected-shift :
      (k v : Text) (kvs : List (Text × Text)) (i : ℕ) (x : Option (Text × Text)) (sum : D)
      → expected i kvs x (double.add sum (double.atof v)) ≡ expected (suc i) ((k, v) ∷ kvs) x sum
  expected-shift k v kvs i none sum = refl
  expected-shift k v kvs i (some (a, b)) sum = refl

  -- The probabilities of a list of keys and values.
  abbrev pub IsCumulated : List (D × D) → List (Text × Text) → D → Type 0
  IsCumulated ps kvs sum =
      (length ps ≡ length kvs) × ((i : ℕ) → get_elem? ps i ≡ expected i kvs (get_elem? kvs i) sum)

  expected-cons :
      (k v : Text) (kvs : List (Text × Text)) (ps : List (D × D)) (sum : D) (i : ℕ)
      → ((j : ℕ)
          → get_elem? ps j ≡ expected j kvs (get_elem? kvs j) (double.add sum (double.atof v)))
      → get_elem? ((double.atof k, double.add sum (double.atof v)) ∷ ps) i
        ≡ expected i ((k, v) ∷ kvs) (get_elem? ((k, v) ∷ kvs) i) sum
  expected-cons k v kvs ps sum zero f = refl
  expected-cons k v kvs ps sum (suc i) f = f i ∙ expected-shift k v kvs i (get_elem? kvs i) sum

  cumulate-flatten :
      (kvs : List (Text × Text)) (sum : D)
      → (ps : List (D × D)) × (cumulate (flatten kvs) sum ≡ some ps) × IsCumulated ps kvs sum
  unfolding cumulate
  cumulate-flatten [] sum = ([], refl, (refl, λ i. refl))
  cumulate-flatten ((k, v) ∷ kvs) sum =
      let sum' = double.add sum (double.atof v) in
      let (ps, e, c) = cumulate-flatten kvs sum' in
      (
        (double.atof k, sum') ∷ ps,
        rw e refl,
        (omega (arith, c.0), λ i. expected-cons k v kvs ps sum i c.1),
      )

  -- For every string, Parse does one of two things and never reads past the end. If the tokens are a
  -- name and pairs of a key and a value, it stores the name and, for each pair, the key and the sum of
  -- all values up to that one, added in their order. If the number of tokens is even, it ends the
  -- program and has changed nothing.
  pub parse_lem :
      (tokens : Text → List Text) (str : Text) (d : DiscreteProbabilityDistribution D)
      → ((name : Text) × (kvs : List (Text × Text)) × (ps : List (D × D)) × (tokens str
            ≡ name ∷ flatten kvs)
          × (parse tokens str d ≡ some (returned, record { var_name = name; probabilities = ps }))
          × IsCumulated ps kvs double.zero_)
        ⊎ ((length (tokens str) % 2 ≡ 0) × (parse tokens str d ≡ some (terminated, d)))
  unfolding parse parse_tokens
  parse_lem tokens str d = go (tokens str) refl
    where
      go :
          (ts : List Text)
          → tokens str ≡ ts
          → ((name : Text) × (kvs : List (Text × Text)) × (ps : List (D × D)) × (ts
                ≡ name ∷ flatten kvs)
              × (parse_tokens ts d
                  ≡ some (returned, record { var_name = name; probabilities = ps }))
              × IsCumulated ps kvs double.zero_)
            ⊎ ((length ts % 2 ≡ 0) × (parse_tokens ts d ≡ some (terminated, d)))
      go [] e = inr (refl, refl)
      go (name ∷ es) e = elim (Bool-cases (suc (length es) % 2 == 1)) [
        | inl odd ↦
            let (kvs, f) = pairs_of (length es / 2) es ground (arith) in
            let (ps, g, c) = cumulate-flatten kvs double.zero_ in
            inl (name, kvs, ps, ap (λ x. name ∷ x) f, rw (odd, f, g) refl, c)
        | inr even ↦ inr (ground arith, rw even refl)
      ]
