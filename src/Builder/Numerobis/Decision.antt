-- ===== src/Builder/Numerobis/Decision.antt =====
-- Registrar::CheckReady decides whether a name is buildable.
use doo_fit.Base.{
  ℕ, zero, suc, String, Bool, true, false, ◌&&◌, Option, none, some, List, [], ◌∷◌, Dict, find,
  assign, find-assign, find-assign_self, eq_iff, str_eq, Bool-cases, ◌⊎◌, inl, inr, ◌≡◌, refl, sym,
  subst, arith,
}
use doo_fit.Builder.Numerobis.Element.{Element}
use doo_fit.Builder.Numerobis.Readiness.{
  Check, and_check, set_ready, check_dependant, check_dependants, finish_check, check_found,
  check_ready,
}
use doo_fit.Builder.Numerobis.Buildable.{
  Supplied, done, flagged, supplied, IsBuildable, Supplied-one, Supplied-head, Supplied-back,
  Supplied-forth, Flags, Flags-refl, Flags-trans, IsKeyed, Flags-IsKeyed,
}

pub false-eq-true : false ≡ true → ⊥
false-eq-true h = ground arith

module _ {R : Type 0} where
  pub and_check-eq-some :
      (c : Check R) (f : Bool → Dict (Element R) → Check R) (x : Bool × Dict (Element R))
      → and_check c f ≡ some x
      → (b : Bool) × (m : Dict (Element R)) × (c ≡ some (b, m)) × (f b m ≡ some x)
  and_check-eq-some none f x h = ground arith
  and_check-eq-some (some (b, m)) f x h = (b, m, refl, h)

  pub undeclared :
      (m : Dict (Element R)) (n : String) (ns : List String)
      → find n m ≡ none
      → Supplied m (n ∷ ns)
      → ⊥
  undeclared m n ns h (flagged _ _ e f r s) = ground arith
  undeclared m n ns h (supplied _ _ e f d s) = ground arith

  unready :
      (m : Dict (Element R)) (n : String) (ns : List String) (e : Element R)
      → find n m ≡ some e
      → e.ready ≡ false
      → Supplied m (n ∷ ns)
      → Supplied m e.dependants
  unready m n ns e h u (flagged _ _ e' f r s) = ground arith
  unready m n ns e h u (supplied _ _ e' f d s) =
      let same : e' ≡ e = ground arith in subst (λ z. Supplied m z.dependants) same d

  -- The flags after a check of `ns`, and its answer.
  pub record Decides (m : Dict (Element R)) (ns : List String) (before b : Bool)
      (m' : Dict (Element R)) : Type 0 where
    pub flags : Flags m m'
    pub sound : b ≡ true → (before ≡ true) × Supplied m ns
    pub complete : before ≡ true → Supplied m ns → b ≡ true

  module _ (check : String → Dict (Element R) → Check R)
      (right : (n : String) (m : Dict (Element R)) (b : Bool) (m' : Dict (Element R))
        → IsKeyed m
        → check n m ≡ some (b, m')
        → Decides m (n ∷ []) true b m') where
    pub check_dependant-Decides :
        (d : String) (x : Option (Element R)) (before : Bool) (m : Dict (Element R)) (b : Bool)
        (m' : Dict (Element R))
        → IsKeyed m
        → find d m ≡ x
        → check_dependant check x before m ≡ some (b, m')
        → Decides m (d ∷ []) before b m'
    check_dependant-Decides d none before m b m' k e h =
        let same : m ≡ m' = ground arith in
        record {
          flags = subst (Flags m) same (Flags-refl m);
          sound = λ t. ground arith;
          complete = λ t u. absurd (undeclared m d [] e u);
        }
    check_dependant-Decides d (some el) before m b m' k e h =
        let (b1, m1, e1, h1) =
          and_check-eq-some (check el.id_abs m) (λ b m'. some (before && b, m')) (b, m') h in
        let r = right d m b1 m1 k (rw (k d el e) at e1) in
        let same : m1 ≡ m' = ground arith in
        record {
          flags = subst (Flags m) same r.flags;
          sound = λ t. (ground arith, (r.sound ground (arith)).1);
          complete = λ t u. ground (arith, r.complete refl u);
        }

    pub check_dependants-Decides :
        (ds : List String) (before : Bool) (m : Dict (Element R)) (b : Bool) (m' : Dict (Element R))
        → IsKeyed m
        → check_dependants check ds before m ≡ some (b, m')
        → Decides m ds before b m'
    unfolding check_dependants
    check_dependants-Decides [] before m b m' k h =
        let same : m ≡ m' = ground arith in
        record {
          flags = subst (Flags m) same (Flags-refl m);
          sound = λ t. (ground arith, done);
          complete = λ t u. ground arith;
        }
    check_dependants-Decides (d ∷ ds) before m b m' k h =
        let (b1, m1, e1, h1) = and_check-eq-some _ _ (b, m') h in
        let r1 = check_dependant-Decides d (find d m) before m b1 m1 k refl e1 in
        let r2 = check_dependants-Decides ds b1 m1 b m' (Flags-IsKeyed m m1 r1.flags k) h1 in
        record {
          flags = Flags-trans m m1 m' r1.flags r2.flags;
          sound = λ t.
              let (t1, s) = r2.sound t in
              let (t0, s0) = r1.sound t1 in
              (t0, Supplied-one m d ds s0 (Supplied-back m m1 ds r1.flags s));
          complete = λ t u.
              let (s0, s) = Supplied-head m d ds u in
              r2.complete (r1.complete t s0) (Supplied-forth m m1 ds r1.flags s);
        }

  -- The flag of a name goes up where the element is there and its dependants are supplied.
  set_ready-Flags :
      (n : String) (e : Element R) (m : Dict (Element R))
      → find n m ≡ some e
      → Supplied m e.dependants
      → Flags m (assign n (record e { ready = true }) m)
  set_ready-Flags n e m f s j = elim (Bool-cases (str_eq n j)) [
    | inl same ↦
        let at : n ≡ j = (eq_iff n j).0 same in
        subst
          (λ j.
            (find j (assign n (record e { ready = true }) m) ≡ find j m)
            ⊎ ((e' : Element R) × (find j m ≡ some e')
                × (find j (assign n (record e { ready = true }) m)
                    ≡ some (record e' { ready = true }))
                × IsBuildable m j))
          at
          (inr (e, f, find-assign_self n (record e { ready = true }) m, supplied n [] e f s done))
    | inr other ↦ inl (rw (find-assign n j (record e { ready = true }) m, other) refl)
  ]

  -- An element with the flag down, before a check and after it.
  flag_after :
      (n : String) (e : Element R) (m m1 : Dict (Element R))
      → find n m ≡ some e
      → Flags m m1
      → (find n m1 ≡ some e) ⊎ ((find n m1 ≡ some (record e { ready = true })) × IsBuildable m n)
  flag_after n e m m1 f s = elim (s n) [
    | inl same ↦ inl cc
    | inr (e0, f0, f1, built) ↦ inr (ground arith, built)
  ]

  finish_true-Decides :
      (n : String) (e e1 : Element R) (m m1 : Dict (Element R)) (b : Bool) (m' : Dict (Element R))
      → find n m ≡ some e
      → find n m1 ≡ some e1
      → e1.dependants ≡ e.dependants
      → Flags m m1
      → Supplied m e.dependants
      → finish_check n true m1 ≡ some (b, m')
      → Decides m (n ∷ []) true b m'
  unfolding set_ready
  finish_true-Decides n e e1 m m1 b m' f f1 same s d h =
      let at : assign n (record e1 { ready = true }) m1 ≡ m' = ground arith in
      record {
        flags = Flags-trans m m1 m' s (
            subst (Flags m1) at (
              set_ready-Flags n e1 m1 f1
                (subst (Supplied m1) (sym same) (Supplied-forth m m1 e.dependants s d))));
        sound = λ t. (refl, supplied n [] e f d done);
        complete = λ t u. ground (arith, find-assign_self n (record e1 { ready = true }) m1);
      }

  finish_check-Decides :
      (n : String) (e : Element R) (m m1 : Dict (Element R)) (all b : Bool) (m' : Dict (Element R))
      → find n m ≡ some e
      → e.ready ≡ false
      → Decides m e.dependants true all m1
      → finish_check n all m1 ≡ some (b, m')
      → Decides m (n ∷ []) true b m'
  finish_check-Decides n e m m1 true b m' f u r h = elim (flag_after n e m m1 f r.flags) [
    | inl down ↦ finish_true-Decides n e e m m1 b m' f down refl r.flags (r.sound refl).1 h
    | inr (up, built) ↦
        finish_true-Decides n e (record e { ready = true }) m m1 b m' f up refl r.flags
          (r.sound refl).1 h
  ]
  finish_check-Decides n e m m1 false b m' f u r h = elim (flag_after n e m m1 f r.flags) [
    | inl down ↦
        let same : m1 ≡ m' = ground arith in
        record {
          flags = subst (Flags m) same r.flags;
          sound = λ t. ground arith;
          complete = λ t v. absurd (false-eq-true (r.complete refl (unready m n [] e f u v)));
        }
    | inr (up, built) ↦
        let same : m1 ≡ m' = ground arith in
        record {
          flags = subst (Flags m) same r.flags;
          sound = λ t. (refl, built);
          complete = λ t v. ground arith;
        }
  ]

  check_found-Decides :
      (check : String → Dict (Element R) → Check R)
      → ((n : String) (m : Dict (Element R)) (b : Bool) (m' : Dict (Element R))
          → IsKeyed m
          → check n m ≡ some (b, m')
          → Decides m (n ∷ []) true b m')
      → (x : Option (Element R)) (n : String) (m : Dict (Element R)) (b : Bool)
        (m' : Dict (Element R))
      → IsKeyed m
      → find n m ≡ x
      → check_found check x n m ≡ some (b, m')
      → Decides m (n ∷ []) true b m'
  check_found-Decides check right none n m b m' k e h =
      let same : m ≡ m' = ground arith in
      record {
        flags = subst (Flags m) same (Flags-refl m);
        sound = λ t. ground arith;
        complete = λ t u. absurd (undeclared m n [] e u);
      }
  check_found-Decides check right (some el) n m b m' k e h = elim (Bool-cases el.ready) [
    | inl r ↦
        let same : m ≡ m' = ground arith in
        record {
          flags = subst (Flags m) same (Flags-refl m);
          sound = λ t. (refl, flagged n [] el e r done);
          complete = λ t u. ground arith;
        }
    | inr u ↦
        let (all, m1, e1, h1) = and_check-eq-some _ _ (b, m') (rw u at h) in
        finish_check-Decides n el m m1 all b m' e u
          (check_dependants-Decides check right el.dependants true m all m1 k e1) h1
  ]

  pub check_ready-Decides :
      (fuel : ℕ) (n : String) (m : Dict (Element R)) (b : Bool) (m' : Dict (Element R))
      → IsKeyed m
      → check_ready fuel n m ≡ some (b, m')
      → Decides m (n ∷ []) true b m'
  unfolding check_ready
  check_ready-Decides zero n m b m' k h = ground arith
  check_ready-Decides (suc fuel) n m b m' k h =
      check_found-Decides (check_ready fuel) (check_ready-Decides fuel) (find n m) n m b m' k refl h
