-- ===== src/Toy/Factory/NamedValues.antt =====
-- Sets of values by the names of variables.
use doo_fit.Base.{
  String, str_eq, eq_iff, eq_refl, List, [], ◌∷◌, ◌++◌, Bool-cases, inl, inr, ◌⊎◌, ◌≡◌, refl, sym,
  ap,
}
use doo_fit.Toy.Factory.Append.{Has}
use doo_fit.Toy.Factory.Discrete.{DiscVar, Values, add_to_set, change_value}

-- Values by the names of variables.
abbrev pub zip : {D : Type 0} → List (DiscVar D) → List D → Values D
zip [] xs = []
zip (v ∷ vs) [] = []
zip (v ∷ vs) (x ∷ xs) = (v.var_name, x) ∷ zip vs xs

abbrev pub names : {D : Type 0} → List (DiscVar D) → List String
names [] = []
names (v ∷ vs) = v.var_name ∷ names vs

abbrev pub keys : {D : Type 0} → Values D → List String
keys [] = []
keys ((n, x) ∷ set) = n ∷ keys set

-- None of the names is in a set of values.
abbrev pub Apart : {D : Type 0} → Values D → List String → Type 0
Apart set [] = Unit
Apart set (n ∷ ns) = ¬ Has (keys set) n × Apart set ns

module _ {D : Type 0} where
  Has-keys_append :
      (set : Values D) (n m : String) (x : D)
      → Has (keys (set ++ ((n, x) ∷ []))) m
      → Has (keys set) m ⊎ (n ≡ m)
  Has-keys_append [] n m x (inl e) = inr e
  Has-keys_append [] n m x (inr h) = absurd h
  Has-keys_append ((j, y) ∷ set) n m x (inl e) = inl (inl e)
  Has-keys_append ((j, y) ∷ set) n m x (inr h) = elim (Has-keys_append set n m x h) [
    | inl k ↦ inl (inr k)
    | inr e ↦ inr e
  ]

  pub Apart-append :
      (set : Values D) (n : String) (x : D) (ns : List String)
      → ¬ Has ns n
      → Apart set ns
      → Apart (set ++ ((n, x) ∷ [])) ns
  Apart-append set n x [] h a = tt
  Apart-append set n x (m ∷ ns) h (a, b) = (
    λ k. elim (Has-keys_append set n m x k) [ inl i ↦ a i | inr e ↦ h (inl (sym e)) ],
    Apart-append set n x ns (λ k. h (inr k)) b,
  )

  pub change_value-append :
      (n : String) (f : D → D) (x : D) (set rest : Values D)
      → ¬ Has (keys set) n
      → change_value n f (set ++ (n, x) ∷ rest) ≡ set ++ (n, f x) ∷ rest
  unfolding change_value
  change_value-append n f x [] rest h = rw (eq_refl n) refl
  change_value-append n f x ((j, y) ∷ set) rest h = elim (Bool-cases (str_eq j n)) [
    | inl t ↦ absurd (h (inl ((eq_iff j n).0 t)))
    | inr t ↦ rw t (ap (◌∷◌ (j, y)) (change_value-append n f x set rest (λ k. h (inr k))))
  ]

  pub add_to_set-append :
      (n : String) (x : D) (set : Values D)
      → ¬ Has (keys set) n
      → add_to_set n x set ≡ set ++ ((n, x) ∷ [])
  unfolding add_to_set
  add_to_set-append n x [] h = refl
  add_to_set-append n x ((j, y) ∷ set) h = elim (Bool-cases (str_eq j n)) [
    | inl t ↦ absurd (h (inl ((eq_iff j n).0 t)))
    | inr t ↦ rw t (ap (◌∷◌ (j, y)) (add_to_set-append n x set (λ k. h (inr k))))
  ]
