-- ===== src/Toy/Factory/Shuffle.antt =====
-- The Fisher-Yates shuffle of AppendDatasets. `integer i` is what `rand->Integer(i + 1)` returns.
use mathlib.Core.List.{Perm, perm_append_singleton, perm_middle, append_assoc}
use mathlib.Core.List.Perm
use doo_fit.Base.{
  ℕ, zero, suc, ◌<◌, ◌≤◌, ltb, List, [], ◌∷◌, ◌++◌, length, set, if◌then◌else◌, Bool-cases,
  length-append, inl, inr, ◌≡◌, refl, sym, ap, ◌∙◌, arith,
}

abbrev get_or : List ℕ → ℕ → ℕ
get_or [] i = 0
get_or (x ∷ xs) zero = x
get_or (x ∷ xs) (suc i) = get_or xs i

-- std::vector<int>(n)
abbrev zeros : ℕ → List ℕ
zeros zero = []
zeros (suc n) = 0 ∷ zeros n

abbrev pub range_from : ℕ → ℕ → List ℕ
range_from i zero = []
range_from i (suc n) = i ∷ range_from (suc i) n

-- The body of the loop: new_order[i] = new_order[j]; new_order[j] = i.
unfoldable shuffle_step : ℕ → ℕ → List ℕ → List ℕ
shuffle_step i j order = set (set order i (get_or order j)) j i

-- The rounds i, i + 1, ... of the loop.
unfoldable shuffle_rounds : (ℕ → ℕ) → ℕ → ℕ → List ℕ → List ℕ
unfolding shuffle_step
shuffle_rounds integer i zero order = order
shuffle_rounds integer i (suc n) order =
    shuffle_rounds integer (suc i) n (shuffle_step i (integer i) order)

-- new_order
unfoldable pub new_order : (ℕ → ℕ) → ℕ → List ℕ
unfolding shuffle_rounds
new_order integer zero = []
new_order integer (suc n) = shuffle_rounds integer 1 n (set (zeros (suc n)) 0 0)

set-perm : (l : List ℕ) (j x : ℕ) → j < length l → Perm (get_or l j ∷ set l j x) (x ∷ l)
set-perm [] j x h = absurd (omega arith)
set-perm (y ∷ l) zero x h = Perm.swap x y l
set-perm (y ∷ l) (suc j) x h =
    Perm.trans (Perm.swap y (get_or l j) (set l j x))
      (Perm.trans (Perm.cons y (set-perm l j x (omega arith))) (Perm.swap x y l))

length-set : (l : List ℕ) (j x : ℕ) → length (set l j x) ≡ length l
length-set [] j x = refl
length-set (y ∷ l) zero x = refl
length-set (y ∷ l) (suc j) x = ap suc (length-set l j x)

set-append_end :
    (pre rest : List ℕ) (x y : ℕ) → set (pre ++ y ∷ rest) (length pre) x ≡ pre ++ x ∷ rest
set-append_end [] rest x y = refl
set-append_end (p ∷ pre) rest x y = ap (◌∷◌ p) (set-append_end pre rest x y)

set-append :
    (pre rest : List ℕ) (j x : ℕ) → j < length pre → set (pre ++ rest) j x ≡ set pre j x ++ rest
set-append [] rest j x h = absurd (omega arith)
set-append (p ∷ pre) rest zero x h = refl
set-append (p ∷ pre) rest (suc j) x h = ap (◌∷◌ p) (set-append pre rest j x (omega arith))

get_or-append : (pre rest : List ℕ) (j : ℕ) → j < length pre → get_or (pre ++ rest) j ≡ get_or pre j
get_or-append [] rest j h = absurd (omega arith)
get_or-append (p ∷ pre) rest zero h = refl
get_or-append (p ∷ pre) rest (suc j) h = get_or-append pre rest j (omega arith)

-- The first entries after a round.
abbrev shuffled : List ℕ → ℕ → ℕ → List ℕ
shuffled pre i j = if ltb j i then set pre j i ++ (get_or pre j ∷ []) else pre ++ (i ∷ [])

shuffle_step-prefix :
    (pre : List ℕ) (i j n : ℕ)
    → length pre ≡ i
    → j ≤ i
    → shuffle_step i j (pre ++ zeros (suc n)) ≡ shuffled pre i j ++ zeros n
unfolding shuffle_step
shuffle_step-prefix pre i j n e h = elim (Bool-cases (ltb j i)) [
  | inl t ↦
      let below : j < length pre = ground arith in
      rw
        (
          t,
          get_or-append pre (zeros (suc n)) j below,
          ← e,
          set-append_end pre (zeros n) (get_or pre j) 0,
        )
        (set-append pre (get_or pre j ∷ zeros n) j (length pre) below
          ∙ sym (append_assoc (set pre j (length pre)) (get_or pre j ∷ []) (zeros n)))
  | inr t ↦
      let same : j ≡ length pre = ground arith in
      rw (t, same, ← e, set-append_end pre (zeros n) (get_or (pre ++ zeros (suc n)) (length pre)) 0)
        (set-append_end pre (zeros n) (length pre) (get_or (pre ++ zeros (suc n)) (length pre))
          ∙ sym (append_assoc pre (length pre ∷ []) (zeros n)))
]

shuffled-perm :
    (pre : List ℕ) (i j : ℕ) → length pre ≡ i → j ≤ i → Perm (shuffled pre i j) (i ∷ pre)
shuffled-perm pre i j e h = elim (Bool-cases (ltb j i)) [
  | inl t ↦ rw t (
      Perm.trans (perm_append_singleton (get_or pre j) (set pre j i))
        (set-perm pre j i (ground arith)))
  | inr t ↦ rw t (perm_append_singleton i pre)
]

length-shuffled : (pre : List ℕ) (i j : ℕ) → length (shuffled pre i j) ≡ suc (length pre)
length-shuffled pre i j = elim (Bool-cases (ltb j i)) [
  | inl t ↦
      rw t (omega (arith, length-append (set pre j i) (get_or pre j ∷ []), length-set pre j i))
  | inr t ↦ rw t (omega (arith, length-append pre (i ∷ [])))
]

shuffle_rounds-perm :
    (integer : ℕ → ℕ)
    → ((i : ℕ) → integer i ≤ i)
    → (n i : ℕ) (pre : List ℕ) → length pre ≡ i
    → Perm (shuffle_rounds integer i n (pre ++ zeros n)) (pre ++ range_from i n)
unfolding shuffle_rounds
shuffle_rounds-perm integer drawn zero i pre e = Perm.rfl
shuffle_rounds-perm integer drawn (suc n) i pre e =
    let p = shuffled-perm pre i (integer i) e (drawn i) in
    rw (shuffle_step-prefix pre i (integer i) n e (drawn i)) (
      Perm.trans
        (shuffle_rounds-perm integer drawn n (suc i) (shuffled pre i (integer i))
          (length-shuffled pre i (integer i) ∙ ap suc e))
        (Perm.trans (Perm.append_right (range_from (suc i) n) p)
          (Perm.symm (perm_middle pre (range_from (suc i) n)))))

-- Whatever the random numbers, the shuffle gives every index once.
pub new_order-perm :
    (integer : ℕ → ℕ)
    → ((i : ℕ) → integer i ≤ i)
    → (n : ℕ) → Perm (new_order integer n) (range_from 0 n)
unfolding new_order
new_order-perm integer drawn zero = Perm.nil
new_order-perm integer drawn (suc n) = shuffle_rounds-perm integer drawn n 1 (0 ∷ []) refl
