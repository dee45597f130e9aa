-- ===== src/Builder/Numerobis/Buildable.antt =====
-- What Registrar::CheckReady decides, stated without the recursion and its flags, and how the flags
-- change.
use doo_fit.Base.{String, true, some, List, [], ◌∷◌, Dict, find, ◌⊎◌, inl, inr, ◌≡◌, refl, arith}
use doo_fit.Builder.Numerobis.Element.{Element}

module _ {R : Type 0} where
  -- Each name of the list is declared, and is ready or has only such names as dependants.
  pub data Supplied (m : Dict (Element R)) : List String → Type 0 where
    done : Supplied m []
    flagged :
        (n : String) (ns : List String) (e : Element R)
        → find n m ≡ some e
        → e.ready ≡ true
        → Supplied m ns
        → Supplied m (n ∷ ns)
    supplied :
        (n : String) (ns : List String) (e : Element R)
        → find n m ≡ some e
        → Supplied m e.dependants
        → Supplied m ns
        → Supplied m (n ∷ ns)

  abbrev pub IsBuildable : Dict (Element R) → String → Type 0
  IsBuildable m n = Supplied m (n ∷ [])

  pub Supplied-one :
      (m : Dict (Element R)) (n : String) (ns : List String)
      → IsBuildable m n
      → Supplied m ns
      → Supplied m (n ∷ ns)
  Supplied-one m n ns (flagged _ _ e f r done) s = flagged n ns e f r s
  Supplied-one m n ns (supplied _ _ e f d done) s = supplied n ns e f d s

  pub Supplied-head :
      (m : Dict (Element R)) (n : String) (ns : List String)
      → Supplied m (n ∷ ns)
      → IsBuildable m n × Supplied m ns
  Supplied-head m n ns (flagged _ _ e f r s) = (flagged n [] e f r done, s)
  Supplied-head m n ns (supplied _ _ e f d s) = (supplied n [] e f d done, s)

  -- The elements keep all but their flag, and a flag goes up only where the name is buildable.
  abbrev pub Flags : Dict (Element R) → Dict (Element R) → Type 0
  Flags m m' =
      (n : String)
      → (find n m' ≡ find n m)
        ⊎ ((e : Element R) × (find n m ≡ some e)
            × (find n m' ≡ some (record e { ready = true }))
            × IsBuildable m n)

  pub Flags-refl : (m : Dict (Element R)) → Flags m m
  Flags-refl m n = inl refl

  pub Supplied-back :
      (m m' : Dict (Element R)) (ns : List String) → Flags m m' → Supplied m' ns → Supplied m ns
  Supplied-back m m' [] s done = done
  Supplied-back m m' (n ∷ ns) s (flagged _ _ e f r t) = elim (s n) [
    | inl same ↦ flagged n ns e (cc) r (Supplied-back m m' ns s t)
    | inr (e0, f0, f1, b) ↦ Supplied-one m n ns b (Supplied-back m m' ns s t)
  ]
  Supplied-back m m' (n ∷ ns) s (supplied _ _ e f d t) = elim (s n) [
    | inl same ↦
        supplied n ns e (cc) (Supplied-back m m' e.dependants s d) (Supplied-back m m' ns s t)
    | inr (e0, f0, f1, b) ↦ Supplied-one m n ns b (Supplied-back m m' ns s t)
  ]

  pub Supplied-forth :
      (m m' : Dict (Element R)) (ns : List String) → Flags m m' → Supplied m ns → Supplied m' ns
  Supplied-forth m m' [] s done = done
  Supplied-forth m m' (n ∷ ns) s (flagged _ _ e f r t) = elim (s n) [
    | inl same ↦ flagged n ns e (cc) r (Supplied-forth m m' ns s t)
    | inr (e0, f0, f1, b) ↦
        flagged n ns (record e0 { ready = true }) f1 refl (Supplied-forth m m' ns s t)
  ]
  Supplied-forth m m' (n ∷ ns) s (supplied _ _ e f d t) = elim (s n) [
    | inl same ↦
        supplied n ns e (cc) (Supplied-forth m m' e.dependants s d) (Supplied-forth m m' ns s t)
    | inr (e0, f0, f1, b) ↦
        flagged n ns (record e0 { ready = true }) f1 refl (Supplied-forth m m' ns s t)
  ]

  pub Flags-trans : (m m' m'' : Dict (Element R)) → Flags m m' → Flags m' m'' → Flags m m''
  Flags-trans m m' m'' s t n = elim (s n) [
    | inl same ↦ elim (t n) [
      | inl same' ↦ inl cc
      | inr (e, f0, f1, b) ↦ inr (e, cc, f1, Supplied-back m m' (n ∷ []) s b)
    ]
    | inr (e, f0, f1, b) ↦ elim (t n) [
      | inl same' ↦ inr (e, f0, cc, b)
      | inr (e', g0, g1, c) ↦ inr (e, f0, ground arith, b)
    ]
  ]

  -- The key of an element is its name.
  abbrev pub IsKeyed : Dict (Element R) → Type 0
  IsKeyed m = (n : String) (e : Element R) → find n m ≡ some e → e.id_abs ≡ n

  pub Flags-IsKeyed : (m m' : Dict (Element R)) → Flags m m' → IsKeyed m → IsKeyed m'
  Flags-IsKeyed m m' s k n e f = elim (s n) [
    | inl same ↦ k n e (cc)
    | inr (e0, f0, f1, b) ↦ ground (arith, k n e0 f0)
  ]
