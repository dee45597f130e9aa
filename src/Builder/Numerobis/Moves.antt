-- ===== src/Builder/Numerobis/Moves.antt =====
-- How the elements change while Registrar::Register runs, and the state that it keeps.
use doo_fit.Base.{
  ℕ, String, true, some, List, [], ◌∷◌, Dict, find, inl, inr, ◌≡◌, refl, sym, subst, arith,
}
use doo_fit.Builder.Numerobis.Element.{Element}
use doo_fit.Builder.Numerobis.Buildable.{
  Supplied, done, flagged, supplied, IsBuildable, Flags, Supplied-forth, IsKeyed,
}
use doo_fit.Builder.Numerobis.Termination.{IsRanked}

module _ {R : Type 0} where
  -- The same element but for its flags, none of which went down.
  pub record IsLater (e e' : Element R) : Type 0 where
    pub id : e'.id_abs ≡ e.id_abs
    pub kind : e'.kind ≡ e.kind
    pub dependants : e'.dependants ≡ e.dependants
    pub ready : e.ready ≡ true → e'.ready ≡ true
    pub onworkspace : e.onworkspace ≡ true → e'.onworkspace ≡ true

  pub IsLater-refl : (e : Element R) → IsLater e e
  IsLater-refl e = record {
    id = refl;
    kind = refl;
    dependants = refl;
    ready = λ h. h;
    onworkspace = λ h. h;
  }

  IsLater-trans : (e f g : Element R) → IsLater e f → IsLater f g → IsLater e g
  IsLater-trans e f g a b = record {
    id = cc;
    kind = cc;
    dependants = cc;
    ready = λ h. b.ready (a.ready h);
    onworkspace = λ h. b.onworkspace (a.onworkspace h);
  }

  -- The same names, with later elements.
  pub record Moves (m m' : Dict (Element R)) : Type 0 where
    pub forth :
        (n : String) (e : Element R)
        → find n m ≡ some e
        → (e' : Element R) × (find n m' ≡ some e') × IsLater e e'
    pub back :
        (n : String) (e' : Element R)
        → find n m' ≡ some e'
        → (e : Element R) × (find n m ≡ some e) × IsLater e e'

  pub Moves-refl : (m : Dict (Element R)) → Moves m m
  Moves-refl m = record {
    forth = λ n e f. (e, f, IsLater-refl e);
    back = λ n e f. (e, f, IsLater-refl e);
  }

  pub Moves-trans : (m m' m'' : Dict (Element R)) → Moves m m' → Moves m' m'' → Moves m m''
  Moves-trans m m' m'' s t = record {
    forth = λ n e f.
        let (e1, f1, l1) = s.forth n e f in
        let (e2, f2, l2) = t.forth n e1 f1 in (e2, f2, IsLater-trans e e1 e2 l1 l2);
    back = λ n e f.
        let (e1, f1, l1) = t.back n e f in
        let (e2, f2, l2) = s.back n e1 f1 in (e2, f2, IsLater-trans e2 e1 e l2 l1);
  }

  up-IsLater : (e : Element R) → IsLater e (record e { ready = true })
  up-IsLater e = record {
    id = refl;
    kind = refl;
    dependants = refl;
    ready = λ h. refl;
    onworkspace = λ h. h;
  }

  pub Flags-Moves : (m m' : Dict (Element R)) → Flags m m' → Moves m m'
  Flags-Moves m m' s = record {
    forth = λ n e f. elim (s n) [
      | inl same ↦ (e, cc, IsLater-refl e)
      | inr (e0, f0, f1, b) ↦ (record e { ready = true }, ground arith, up-IsLater e)
    ];
    back = λ n e' f. elim (s n) [
      | inl same ↦ (e', cc, IsLater-refl e')
      | inr (e0, f0, f1, b) ↦
          let same : record e0 { ready = true } ≡ e' = ground arith in
          (e0, f0, subst (IsLater e0) same (up-IsLater e0))
    ];
  }

  pub Moves-Supplied :
      (m m' : Dict (Element R)) (ns : List String) → Moves m m' → Supplied m ns → Supplied m' ns
  Moves-Supplied m m' [] s done = done
  Moves-Supplied m m' (n ∷ ns) s (flagged _ _ e f r t) =
      let (e', f', l) = s.forth n e f in flagged n ns e' f' (l.ready r) (Moves-Supplied m m' ns s t)
  Moves-Supplied m m' (n ∷ ns) s (supplied _ _ e f d t) =
      let (e', f', l) = s.forth n e f in
      supplied n ns e' f'
        (subst (Supplied m') (sym l.dependants) (Moves-Supplied m m' e.dependants s d))
        (Moves-Supplied m m' ns s t)

  pub Moves-IsKeyed : (m m' : Dict (Element R)) → Moves m m' → IsKeyed m → IsKeyed m'
  Moves-IsKeyed m m' s k n e' f' = let (e, f, l) = s.back n e' f' in ground (arith, k n e f, l.id)

  pub Moves-IsRanked :
      (rank : String → ℕ) (m m' : Dict (Element R))
      → Moves m m'
      → IsRanked rank m
      → IsRanked rank m'
  Moves-IsRanked rank m m' s r n e' f' = let (e, f, l) = s.back n e' f' in rw l.dependants (r n e f)

  -- A ready element has its dependants supplied.
  abbrev pub IsClosed : Dict (Element R) → Type 0
  IsClosed m =
      (n : String) (e : Element R) → find n m ≡ some e → e.ready ≡ true → Supplied m e.dependants

  pub IsClosed-Supplied :
      (m : Dict (Element R)) (n : String) (e : Element R)
      → IsClosed m
      → find n m ≡ some e
      → IsBuildable m n
      → Supplied m e.dependants
  IsClosed-Supplied m n e c f (flagged _ _ e' f' r done) = c n e f ground (arith)
  IsClosed-Supplied m n e c f (supplied _ _ e' f' d done) =
      let same : e' ≡ e = ground arith in subst (λ z. Supplied m z.dependants) same d

  pub Flags-IsClosed : (m m' : Dict (Element R)) → Flags m m' → IsClosed m → IsClosed m'
  Flags-IsClosed m m' s c n e' f' r = elim (s n) [
    | inl same ↦ Supplied-forth m m' e'.dependants s (c n e' (cc) r)
    | inr (e0, f0, f1, b) ↦
        let same : e0.dependants ≡ e'.dependants = ground arith in
        subst (Supplied m') same
          (Supplied-forth m m' e0.dependants s (IsClosed-Supplied m n e0 c f0 b))
  ]
