-- ===== src/Builder/Numerobis/Order.antt =====
-- Elements that are assembled after all their dependants can all be registered.
use doo_fit.Base.{
  ℕ, zero, suc, ◌+◌, ◌<◌, ◌||◌, String, Bool, true, false, none, some, List, [], ◌∷◌, All, length,
  Dict, find, assign, has_key, has_key-assign, find-assign, eq_iff, str_eq, Bool-cases,
  Option-cases, inl, inr, ◌≡◌, refl, sym, ◌∙◌, subst, arith, if◌then◌else◌,
}
use doo_fit.Builder.Numerobis.Element.{Element, Registrar, empty, declare}
use doo_fit.Builder.Numerobis.Buildable.{Supplied, done, supplied, Supplied-one, IsBuildable}
use doo_fit.Builder.Numerobis.Termination.{IsRanked}
use doo_fit.Builder.Numerobis.Registration.{Workspace, register}
use doo_fit.Builder.Numerobis.Safety.{Laws, All-map}
use doo_fit.Builder.Numerobis.Registered.{Places}
use doo_fit.Builder.Numerobis.Guarantee.{register-Places}
use doo_fit.Builder.Numerobis.Assembly.{
  Assembly, element_of, assemble_all, declare-elements, declare-new, assemble_all-IsSafe,
}

abbrev pub has_name : List String → String → Bool
has_name [] n = false
has_name (x ∷ xs) n = str_eq x n || has_name xs n

module _ {R : Type 0} where
  -- Every dependant is among the names assembled before.
  abbrev pub IsInOrder : List (Assembly R) → List String → Type 0
  IsInOrder [] names = Unit
  IsInOrder (a ∷ as_) names =
      All (λ d. has_name names d ≡ true) (element_of a).dependants
      × IsInOrder as_ ((element_of a).id_abs ∷ names)

  -- The elements so far, their names, and a rank below their number.
  record IsOrdered (m : Dict (Element R)) (names : List String) (k : ℕ) : Type 0 where
    rank : String → ℕ
    named : (n : String) → has_key n m ≡ has_name names n
    below : (n : String) → rank n < suc k
    ranked :
        (n : String) (e : Element R)
        → find n m ≡ some e
        → All (λ d. (has_name names d ≡ true) × (rank d < rank n)) e.dependants

  module _ (m : Dict (Element R)) (names : List String) (k : ℕ) (o : IsOrdered m names k) where
    all_supplied :
        (j : ℕ)
        → ((n : String) → o.rank n < j → has_key n m ≡ true → IsBuildable m n)
        → (ds : List String) → All (λ d. (has_name names d ≡ true) × (o.rank d < j)) ds
        → Supplied m ds
    all_supplied j f [] a = done
    all_supplied j f (d ∷ ds) a =
        Supplied-one m d ds (f d a.0.1 (o.named d ∙ a.0.0)) (all_supplied j f ds a.1)

    has_key-found : (n : String) → has_key n m ≡ true → (e : Element R) × (find n m ≡ some e)
    unfolding has_key
    has_key-found n h = elim (Option-cases (find n m)) [
      | inl e ↦ ground arith
      | inr (e, f) ↦ (e, f)
    ]

    IsOrdered-IsBuildable :
        (j : ℕ) (n : String) → o.rank n < j → has_key n m ≡ true → IsBuildable m n
    IsOrdered-IsBuildable zero n h p = absurd omega (arith, h)
    IsOrdered-IsBuildable (suc j) n h p =
        let (e, f) = has_key-found n p in
        supplied n [] e f
          (all_supplied j (IsOrdered-IsBuildable j) e.dependants
            (All-map e.dependants (λ d a. (a.0, omega (arith, a.1, h))) (o.ranked n e f)))
          done

    IsOrdered-IsRanked : IsRanked o.rank m
    IsOrdered-IsRanked n e f = All-map e.dependants (λ d a. a.1) (o.ranked n e f)

    -- One more element, with a new name and dependants among the names.
    module _ (e : Element R) (new : has_key e.id_abs m ≡ false)
        (deps : All (λ d. has_name names d ≡ true) e.dependants) where
      abbrev rank_after : String → ℕ
      rank_after n = if str_eq e.id_abs n then suc k else o.rank n

      other_name : (d : String) → has_name names d ≡ true → str_eq e.id_abs d ≡ false
      other_name d h = elim (Bool-cases (str_eq e.id_abs d)) [
        | inl same ↦
            let at : e.id_abs ≡ d = (eq_iff e.id_abs d).0 same in
            let known : has_name names e.id_abs ≡ true =
              subst (λ d. has_name names d ≡ true) (sym at) h in
            ground (arith, o.named e.id_abs)
        | inr other ↦ other
      ]

      IsOrdered-assign : IsOrdered (assign e.id_abs e m) (e.id_abs ∷ names) (suc k)
      IsOrdered-assign = record {
        rank = rank_after;
        named = λ n. ground (arith, has_key-assign e.id_abs n e m, o.named n);
        below = λ n. ground (arith, o.below n);
        ranked = λ n e' f. elim (Bool-cases (str_eq e.id_abs n)) [
          | inl same ↦
              let it : e ≡ e' = ground (arith, find-assign e.id_abs n e m) in
              subst
                (λ z.
                  All (λ d. (has_name (e.id_abs ∷ names) d ≡ true) × (rank_after d < rank_after n))
                    z.dependants)
                it (All-map e.dependants (λ d a. ground (arith, other_name d a, o.below d)) deps)
          | inr other ↦
              All-map e'.dependants (λ d a. ground (arith, other_name d a.0))
                (o.ranked n e' ground (arith, find-assign e.id_abs n e m))
        ];
      }

  IsOrdered-nil : IsOrdered [] [] 0
  unfolding find has_key
  IsOrdered-nil = record {
    rank = λ n. 0;
    named = λ n. refl;
    below = λ n. omega arith;
    ranked = λ n e f. ground arith;
  }

  assemble_all-IsOrdered :
      (as_ : List (Assembly R)) (names : List String) (k : ℕ) (r r' : Registrar R)
      → IsOrdered r.elements names k
      → IsInOrder as_ names
      → assemble_all as_ r ≡ some r'
      → (names' : List String) × IsOrdered r'.elements names' (k + length as_)
  unfolding assemble_all
  assemble_all-IsOrdered [] names k r r' o i h =
      let same : r ≡ r' = ground arith in
      let count : k ≡ k + 0 = omega arith in
      (
        names,
        subst (IsOrdered r'.elements names) count
            (subst (λ z. IsOrdered z.elements names k) same o),
      )
  assemble_all-IsOrdered (a ∷ as_) names k r r' o i h =
      elim (Option-cases (declare (element_of a) r)) [
        | inl no_ ↦ ground arith
        | inr (r1, d) ↦
            let e = element_of a in
            let o1 : IsOrdered r1.elements (e.id_abs ∷ names) (suc k) =
              subst (λ m. IsOrdered m (e.id_abs ∷ names) (suc k)) (sym (declare-elements e r r1 d))
                (IsOrdered-assign r.elements names k o e (declare-new e r r1 d) i.0) in
            let (names', o') =
              assemble_all-IsOrdered as_ (e.id_abs ∷ names) (suc k) r1 r' o1 i.1 (rw d at h) in
            let count : suc k + length as_ ≡ k + suc (length as_) = omega arith in
            (names', subst (IsOrdered r'.elements names') count o')
      ]

module _ {W R : Type 0} (roo : Workspace W R) where
  -- If elements are assembled on a new Registrar without a repeated name, each after all its
  -- dependants, and the workspace has none of the names and imports as documented, then Register of
  -- any of these names returns an object, with fuel above the number of elements, and puts the element
  -- and all its dependants on the workspace.
  pub register-assemble_all :
      (as_ : List (Assembly R)) (r : Registrar R) (w : W)
      → Laws roo
      → assemble_all as_ empty ≡ some r
      → IsInOrder as_ []
      → ((n : String) → has_key n r.elements ≡ true → roo.obj w n ≡ none)
      → (n : String) → has_key n r.elements ≡ true
      → Places roo
          (register roo (suc (length as_)) n (record { elements = r.elements; ws = w }))
          (record { elements = r.elements; ws = w })
          n
  unfolding empty
  register-assemble_all as_ r w laws h order free n p =
      let (names, o0) = assemble_all-IsOrdered as_ [] 0 empty r IsOrdered-nil order h in
      let zero_count : 0 + length as_ ≡ length as_ = omega arith in
      let o : IsOrdered r.elements names (length as_) =
        subst (IsOrdered r.elements names) zero_count o0 in
      register-Places roo laws o.rank (suc (length as_)) n
        (record { elements = r.elements; ws = w }) (assemble_all-IsSafe roo as_ r w h free)
        (IsOrdered-IsRanked r.elements names (length as_) o) (o.below n)
        (IsOrdered-IsBuildable r.elements names (length as_) o (suc (length as_)) n (o.below n) p)
