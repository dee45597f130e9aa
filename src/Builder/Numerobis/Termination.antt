-- ===== src/Builder/Numerobis/Termination.antt =====
-- Registrar::CheckReady returns where the dependants form no cycle, and does not where they do.
use doo_fit.Base.{
  ℕ, zero, suc, ◌<◌, String, Bool, true, false, ◌&&◌, Option, none, some, List, [], ◌∷◌, All, Dict,
  find, Bool-cases, inl, inr, ◌⊎◌, ◌≡◌, refl, ◌∙◌, arith,
}
use doo_fit.Builder.Numerobis.Element.{Element}
use doo_fit.Builder.Numerobis.Readiness.{
  ready_in, Check, and_check, check_dependant, check_dependants, finish_check, check_found,
  check_ready,
}
use doo_fit.Builder.Numerobis.Buildable.{IsBuildable, Flags, IsKeyed, Flags-IsKeyed}
use doo_fit.Builder.Numerobis.Decision.{
  and_check-eq-some, Decides, check_dependant-Decides, check_ready-Decides,
}

pub All-lt :
    (rank : String → ℕ) (i j : ℕ) (ds : List String)
    → All (λ d. rank d < i) ds
    → i < suc j
    → All (λ d. rank d < j) ds
All-lt rank i j [] a h = tt
All-lt rank i j (d ∷ ds) a h = (omega (arith, a.0, h), All-lt rank i j ds a.1 h)

module _ {R : Type 0} where
  and_check-some :
      (c : Check R) (f : Bool → Dict (Element R) → Check R) (b : Bool) (m : Dict (Element R))
      → c ≡ some (b, m)
      → and_check c f ≡ f b m
  and_check-some c f b m h = rw h refl

  -- The dependants of an element rank below it.
  abbrev pub IsRanked : (String → ℕ) → Dict (Element R) → Type 0
  IsRanked rank m =
      (n : String) (e : Element R) → find n m ≡ some e → All (λ d. rank d < rank n) e.dependants

  pub Flags-IsRanked :
      (rank : String → ℕ) (m m' : Dict (Element R))
      → Flags m m'
      → IsRanked rank m
      → IsRanked rank m'
  Flags-IsRanked rank m m' s r n e f = elim (s n) [
    | inl same ↦ r n e cc
    | inr (e0, f0, f1, b) ↦
        let same : e.dependants ≡ e0.dependants = ground arith in rw same (r n e0 f0)
  ]

  abbrev Returns : Check R → Type 0
  Returns c = (b : Bool) × (m' : Dict (Element R)) × (c ≡ some (b, m'))

  module _ (rank : String → ℕ) (fuel : ℕ)
      (go : (n : String) (m : Dict (Element R))
        → IsKeyed m
        → IsRanked rank m
        → rank n < fuel
        → Returns (check_ready fuel n m)) where
    check_dependant-Returns :
        (d : String) (x : Option (Element R)) (before : Bool) (m : Dict (Element R))
        → IsKeyed m
        → IsRanked rank m
        → find d m ≡ x
        → rank d < fuel
        → Returns (check_dependant (check_ready fuel) x before m)
    check_dependant-Returns d none before m k r e h = (false, m, refl)
    check_dependant-Returns d (some el) before m k r e h =
        let (b, m', e') = go d m k r h in
        (
          before && b,
          m',
          and_check-some (check_ready fuel el.id_abs m) (λ b m'. some (before && b, m')) b m'
              (rw (k d el e) e'),
        )

    check_dependants-Returns :
        (ds : List String) (before : Bool) (m : Dict (Element R))
        → IsKeyed m
        → IsRanked rank m
        → All (λ d. rank d < fuel) ds
        → Returns (check_dependants (check_ready fuel) ds before m)
    unfolding check_dependants
    check_dependants-Returns [] before m k r h = (before, m, refl)
    check_dependants-Returns (d ∷ ds) before m k r h =
        let (b1, m1, e1) = check_dependant-Returns d (find d m) before m k r refl h.0 in
        let s =
          (check_dependant-Decides (check_ready fuel) (check_ready-Decides fuel) d (find d m) before
            m b1 m1 k refl e1).flags in
        let (b2, m2, e2) =
          check_dependants-Returns ds b1 m1 (Flags-IsKeyed m m1 s k) (Flags-IsRanked rank m m1 s r)
            h.1 in
        (b2, m2, and_check-some _ _ b1 m1 e1 ∙ e2)

  finish_check-Returns :
      (n : String) (all : Bool) (m : Dict (Element R)) → Returns (finish_check n all m)
  finish_check-Returns n all m = (_, _, refl)

  check_found-Returns :
      (rank : String → ℕ) (fuel : ℕ)
      → ((n : String) (m : Dict (Element R))
          → IsKeyed m
          → IsRanked rank m
          → rank n < fuel
          → Returns (check_ready fuel n m))
      → (x : Option (Element R)) (n : String) (m : Dict (Element R)) → IsKeyed m
      → IsRanked rank m
      → find n m ≡ x
      → rank n < suc fuel
      → Returns (check_found (check_ready fuel) x n m)
  check_found-Returns rank fuel go none n m k r e h = (false, m, refl)
  check_found-Returns rank fuel go (some el) n m k r e h = elim (Bool-cases el.ready) [
    | inl up ↦ (true, m, rw up refl)
    | inr down ↦
        let (b, m1, e1) =
          check_dependants-Returns rank fuel go el.dependants true m k r
            (All-lt rank (rank n) fuel el.dependants (r n el e) h) in
        let (b', m', e') = finish_check-Returns n b m1 in
        (b', m', rw down (and_check-some _ (finish_check n) b m1 e1 ∙ e'))
  ]

  check_ready-Returns :
      (rank : String → ℕ) (fuel : ℕ) (n : String) (m : Dict (Element R))
      → IsKeyed m
      → IsRanked rank m
      → rank n < fuel
      → Returns (check_ready fuel n m)
  unfolding check_ready
  check_ready-Returns rank zero n m k r h = absurd omega (arith, h)
  check_ready-Returns rank (suc fuel) n m k r h =
      check_found-Returns rank fuel (check_ready-Returns rank fuel) (find n m) n m k r refl h

  check_found-ready_in :
      (check : String → Dict (Element R) → Check R) (x : Option (Element R)) (n : String)
      (m : Dict (Element R)) (b : Bool) (m' : Dict (Element R))
      → find n m ≡ x
      → check_found check x n m ≡ some (b, m')
      → ready_in (find n m') ≡ b
  check_found-ready_in check none n m b m' e h = ground arith
  check_found-ready_in check (some el) n m b m' e h = elim (Bool-cases el.ready) [
    | inl r ↦ ground arith
    | inr u ↦
        let (all, m1, e1, h1) =
          and_check-eq-some (check_dependants check el.dependants true m) (finish_check n) (b, m')
            (rw u at h) in
        ground arith
  ]

  -- The answer is the flag of the element after the check.
  pub check_ready-ready_in :
      (fuel : ℕ) (n : String) (m : Dict (Element R)) (b : Bool) (m' : Dict (Element R))
      → check_ready fuel n m ≡ some (b, m')
      → ready_in (find n m') ≡ b
  unfolding check_ready
  check_ready-ready_in zero n m b m' h = ground arith
  check_ready-ready_in (suc fuel) n m b m' h =
      check_found-ready_in (check_ready fuel) (find n m) n m b m' refl h

  pub check_ready-decided :
      (rank : String → ℕ) (fuel : ℕ) (n : String) (m : Dict (Element R))
      → IsKeyed m
      → IsRanked rank m
      → rank n < fuel
      → (b : Bool) × (m' : Dict (Element R)) × (check_ready fuel n m ≡ some (b, m'))
        × Decides m (n ∷ []) true b m'
  check_ready-decided rank fuel n m k r h =
      let (b, m', e) = check_ready-Returns rank fuel n m k r h in
      (b, m', e, check_ready-Decides fuel n m b m' k e)

  -- The answer of a check, and that it is the right one.
  abbrev pub IsRight : Check R → Dict (Element R) → String → Dict (Element R) → Type 0
  IsRight c m n m' =
      ((c ≡ some (true, m')) × IsBuildable m n) ⊎ ((c ≡ some (false, m')) × (IsBuildable m n → ⊥))

  -- If keys are names and the dependants of every element rank below it, then CheckReady(n) returns
  -- within more fuel than the rank of n: true if n is buildable, and false if it is not. It raises the
  -- flag of buildable names only and changes nothing else.
  pub check_ready_lem :
      (rank : String → ℕ) (fuel : ℕ) (n : String) (m : Dict (Element R))
      → IsKeyed m
      → IsRanked rank m
      → rank n < fuel
      → (m' : Dict (Element R)) × IsRight (check_ready fuel n m) m n m' × Flags m m'
  check_ready_lem rank fuel n m k r h =
      let (b, m', e, d) = check_ready-decided rank fuel n m k r h in
      elim (Bool-cases b) [
        | inl yes_ ↦ (m', inl (rw yes_ at e, (d.sound yes_).1), d.flags)
        | inr no_ ↦ (m', inr (rw no_ at e, λ s. ground (arith, d.complete refl s)), d.flags)
      ]

  -- If each name of a set is declared, not ready, and has a name of the set as its first dependant,
  -- then CheckReady of such a name does not return, whatever the fuel.
  pub check_ready-cycle :
      (P : String → Type 0) (m : Dict (Element R))
      → IsKeyed m
      → ((n : String)
          → P n
          → (e : Element R) × (d : String) × (ds : List String) × (find n m ≡ some e)
            × (e.ready ≡ false)
            × (e.dependants ≡ d ∷ ds)
            × P d)
      → (fuel : ℕ) (n : String) → P n
      → check_ready fuel n m ≡ none
  unfolding check_ready check_dependants
  check_ready-cycle P m k c zero n p = refl
  check_ready-cycle P m k c (suc fuel) n p =
      let (e, d, ds, f, u, s, q) = c n p in
      let (e', d', ds', f', u', s', q') = c d q in
      let rest = check_ready-cycle P m k c fuel d q in rw (f, u, s, f', k d e' f', rest) refl
