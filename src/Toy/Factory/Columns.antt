-- ===== src/Toy/Factory/Columns.antt =====
-- GenerateDiscreteSample, seen as the column of each variable by itself.
use mathlib.Core.List.{append_assoc, append-nil}
use doo_fit.Base.{
  ℕ, zero, suc, ◌+◌, ◌*◌, Bool, true, false, ◌||◌, Option, none, some, List, [], ◌∷◌, ◌++◌, length,
  if◌then◌else◌, Bool-cases, inl, inr, ◌≡◌, refl, sym, ap, ◌∙◌, arith,
}
use doo_fit.Toy.Factory.Append.{Has, Unique}
use doo_fit.Toy.Factory.Discrete.{
  DiscVar, RooVariables, Values, change_value, walk, draw_variables, draw_rows,
}
use doo_fit.Toy.Factory.NamedValues.{zip, names, keys, Apart, Apart-append, change_value-append}

module _ {D : Type 0} (roo : RooVariables D) (uniform : ℕ → D) where
  -- What a variable holds after a random number.
  abbrev pub next : DiscVar D → D → D → D
  next v r y = elim (walk roo r v.probabilities) [
    | none ↦ y
    | some x ↦ roo.set_to v.var_kind v.var_name y x
  ]

  abbrev is_drawn : DiscVar D → D → Bool
  is_drawn v r = elim (walk roo r v.probabilities) [ none ↦ false | some x ↦ true ]

  abbrev next_all : List (DiscVar D) → ℕ → List D → List D
  next_all [] t xs = []
  next_all (v ∷ vs) t [] = []
  next_all (v ∷ vs) t (x ∷ xs) = next v (uniform t) x ∷ next_all vs (suc t) xs

  abbrev pub any_drawn : List (DiscVar D) → ℕ → Bool
  any_drawn [] t = false
  any_drawn (v ∷ vs) t = is_drawn v (uniform t) || any_drawn vs (suc t)

  -- What variable number `k` of `n` holds after some rounds, if it held `x` before.
  abbrev pub held : (n k : ℕ) → DiscVar D → D → ℕ → D
  held n k v x zero = x
  held n k v x (suc i) = next v (uniform (i * n + k)) (held n k v x i)

  abbrev held_all : (n k : ℕ) → List (DiscVar D) → List D → ℕ → List D
  held_all n k [] xs i = []
  held_all n k (v ∷ vs) [] i = []
  held_all n k (v ∷ vs) (x ∷ xs) i = held n k v x i ∷ held_all n (suc k) vs xs i

  -- The rows that are wanted from round number `i` on.
  abbrev pub wanted : List (DiscVar D) → List D → (rounds i : ℕ) → List (Values D)
  wanted vs xs zero i = []
  wanted vs xs (suc m) i =
      let rest = wanted vs xs m (suc i) in
      if any_drawn vs (i * length vs)
      then zip vs (held_all (length vs) 0 vs xs (suc i)) ∷ rest
      else rest

  -- As many values as variables.
  abbrev pub Fills : List (DiscVar D) → List D → Type 0
  Fills [] xs = Unit
  Fills (v ∷ vs) [] = ⊥
  Fills (v ∷ vs) (x ∷ xs) = Fills vs xs

  Fills-held_all :
      (n k i : ℕ) (vs : List (DiscVar D)) (xs : List D)
      → Fills vs xs
      → Fills vs (held_all n k vs xs i)
  Fills-held_all n k i [] xs f = tt
  Fills-held_all n k i (v ∷ vs) [] f = absurd f
  Fills-held_all n k i (v ∷ vs) (x ∷ xs) f = Fills-held_all n (suc k) i vs xs f

  next_all-held_all :
      (n k i : ℕ) (vs : List (DiscVar D)) (xs : List D)
      → next_all vs (i * n + k) (held_all n k vs xs i) ≡ held_all n k vs xs (suc i)
  next_all-held_all n k i [] xs = refl
  next_all-held_all n k i (v ∷ vs) [] = refl
  next_all-held_all n k i (v ∷ vs) (x ∷ xs) =
      ap (◌∷◌ (next v (uniform (i * n + k)) (held n k v x i))) (
        ap (λ t. next_all vs t (held_all n (suc k) vs xs i)) (omega arith)
        ∙ next_all-held_all n (suc k) i vs xs)

  same_state :
      (t u : ℕ) (set set' : Values D) (a b : Bool)
      → t ≡ u
      → set ≡ set'
      → a ≡ b
      → ◌≡◌ {A = ℕ × Values D × Bool} (t, set, a) (u, set', b)
  same_state t u set set' a b p q r = cc

  -- One variable, and the rest of the loop.
  draw_one :
      (v : DiscVar D) (rest : Values D) (pre : Values D) (x : D) (o : Option D) (add any : Bool)
      (k : Values D → Bool → ℕ × Values D × Bool) (t : ℕ) (after : Values D)
      → ¬ Has (keys pre) v.var_name
      → ((y : D) (b : Bool)
          → k (pre ++ (v.var_name, y) ∷ rest) b ≡ (t, pre ++ (v.var_name, y) ∷ after, b || any))
      → elim o [
        | none ↦ k (pre ++ (v.var_name, x) ∷ rest) add
        | some z ↦
            k
              (change_value v.var_name
                (λ y. roo.set_to v.var_kind v.var_name y z)
                (pre ++ (v.var_name, x) ∷ rest))
              true
      ]
        ≡ (
          t,
          pre
              ++ (v.var_name, elim o [ none ↦ x | some z ↦ roo.set_to v.var_kind v.var_name x z ])
                ∷ after,
          add || (elim o [ none ↦ false | some z ↦ true ] || any),
        )
  draw_one v rest pre x none add any k t after h ih = ih x add
  draw_one v rest pre x (some z) add any k t after h ih =
      rw (change_value-append v.var_name (λ y. roo.set_to v.var_kind v.var_name y z) x pre rest h) (
        ih (roo.set_to v.var_kind v.var_name x z) true
        ∙ same_state t t _ _ true (add || true) refl refl (ground arith))

  draw_variables-next_all :
      (vs : List (DiscVar D)) (t : ℕ) (pre : Values D) (xs : List D) (add : Bool)
      → Unique (names vs)
      → Apart pre (names vs)
      → Fills vs xs
      → draw_variables roo uniform vs t (pre ++ zip vs xs) add
        ≡ (t + length vs, pre ++ zip vs (next_all vs t xs), add || any_drawn vs t)
  unfolding draw_variables
  draw_variables-next_all [] t pre xs add u a f =
      same_state t (t + 0) _ _ add (add || false) (omega arith) refl (ground arith)
  draw_variables-next_all (v ∷ vs) t pre [] add u a f = absurd f
  draw_variables-next_all (v ∷ vs) t pre (x ∷ xs) add (u, us) (a, b) f =
      draw_one v (zip vs xs) pre x (walk roo (uniform t) v.probabilities) add (any_drawn vs (suc t))
        (draw_variables roo uniform vs (suc t)) (t + suc (length vs))
        (zip vs (next_all vs (suc t) xs)) a
        (λ y c.
          ap (λ p. draw_variables roo uniform vs (suc t) p c)
            (sym (append_assoc pre ((v.var_name, y) ∷ []) (zip vs xs)))
          ∙ draw_variables-next_all vs (suc t) (pre ++ ((v.var_name, y) ∷ [])) xs c us
              (Apart-append pre v.var_name y (names vs) u b) f
          ∙ same_state (suc t + length vs) (t + suc (length vs)) _ _ _ _ (omega arith)
              (append_assoc pre ((v.var_name, y) ∷ []) (zip vs (next_all vs (suc t) xs))) refl)

  -- One round.
  draw_variables-held_all :
      (vs : List (DiscVar D)) (xs : List D) (i : ℕ)
      → Unique (names vs)
      → Apart {D = D} [] (names vs)
      → Fills vs xs
      → draw_variables roo uniform vs
          (i * length vs)
          (zip vs (held_all (length vs) 0 vs xs i))
          false
        ≡ (
          suc i * length vs,
          zip vs (held_all (length vs) 0 vs xs (suc i)),
          any_drawn vs (i * length vs),
        )
  draw_variables-held_all vs xs i u a f =
      let n = length vs in
      let hs = held_all n 0 vs xs i in
      draw_variables-next_all vs (i * n) [] hs false u a (Fills-held_all n 0 i vs xs f)
      ∙ same_state (i * n + n) (suc i * n) _ _ _ _ (omega arith)
          (ap (zip vs) (ap (λ t. next_all vs t hs) (omega arith) ∙ next_all-held_all n 0 i vs xs))
          refl

  draw_rows-wanted :
      (vs : List (DiscVar D)) (xs : List D) (m i : ℕ) (rows : List (Values D))
      → Unique (names vs)
      → Apart {D = D} [] (names vs)
      → Fills vs xs
      → draw_rows roo uniform vs m (i * length vs) (zip vs (held_all (length vs) 0 vs xs i)) rows
        ≡ rows ++ wanted vs xs m i
  unfolding draw_rows
  draw_rows-wanted vs xs zero i rows u a f = sym (append-nil rows)
  draw_rows-wanted vs xs (suc m) i rows u a f =
      let row = zip vs (held_all (length vs) 0 vs xs (suc i)) in
      rw (draw_variables-held_all vs xs i u a f) (elim (Bool-cases (any_drawn vs (i * length vs))) [
        | inl t ↦ rw t (
            draw_rows-wanted vs xs m (suc i) (rows ++ (row ∷ [])) u a f
            ∙ append_assoc rows (row ∷ []) (wanted vs xs m (suc i)))
        | inr t ↦ rw t (draw_rows-wanted vs xs m (suc i) rows u a f)
      ])

  zip-held_all :
      (n k : ℕ) (vs : List (DiscVar D)) (xs : List D) → zip vs (held_all n k vs xs 0) ≡ zip vs xs
  zip-held_all n k [] xs = refl
  zip-held_all n k (v ∷ vs) [] = refl
  zip-held_all n k (v ∷ vs) (x ∷ xs) = ap (◌∷◌ (v.var_name, x)) (zip-held_all n (suc k) vs xs)

  -- The data set of all rounds.
  pub draw_rows_lem :
      (vs : List (DiscVar D)) (xs : List D) (m : ℕ)
      → Unique (names vs)
      → Apart {D = D} [] (names vs)
      → Fills vs xs
      → draw_rows roo uniform vs m 0 (zip vs xs) [] ≡ wanted vs xs m 0
  draw_rows_lem vs xs m u a f =
      ap (λ set. draw_rows roo uniform vs m 0 set []) (sym (zip-held_all (length vs) 0 vs xs))
      ∙ ap (λ t. draw_rows roo uniform vs m t (zip vs (held_all (length vs) 0 vs xs 0)) [])
          (omega arith)
      ∙ draw_rows-wanted vs xs m 0 [] u a f
