-- ===== src/Builder/Numerobis/Safety.antt =====
-- What Registrar::Register relies on and keeps, and Element::AddToWorkspace.
use doo_fit.Base.{
  String, true, false, none, some, List, [], ◌∷◌, All, Dict, find, assign, find-assign, eq_iff,
  str_eq, Bool-cases, ◌⊎◌, inl, inr, ◌≡◌, refl, sym, subst, arith,
}
use doo_fit.Builder.Numerobis.Element.{Element}
use doo_fit.Builder.Numerobis.Buildable.{Flags, IsKeyed}
use doo_fit.Builder.Numerobis.Moves.{
  IsLater, Moves, Moves-IsKeyed, IsClosed, Flags-Moves, Flags-IsClosed, IsLater-refl,
}
use doo_fit.Builder.Numerobis.Registration.{RooObject, Workspace, Site, get_roo_obj_from_workspace}

-- What RooWorkspace documents of the import of an object whose servers are there: it adds the object
-- under its name, if the name is free, and leaves the other names.
pub record Laws {W R : Type 0} (roo : Workspace W R) : Type 0 where
  pub import_new :
      (o : RooObject R) (w : W)
      → roo.obj w o.name ≡ none
      → roo.obj (roo.import_obj o w) o.name ≡ some o
  pub import_others :
      (o : RooObject R) (w : W) (n : String)
      → str_eq o.name n ≡ false
      → roo.obj (roo.import_obj o w) n ≡ roo.obj w n

pub All-map :
    {A : Type 0} {P Q : A → Type 0} (xs : List A) → ((x : A) → P x → Q x) → All P xs → All Q xs
All-map [] f a = tt
All-map (x ∷ xs) f a = (f x a.0, All-map xs f a.1)

module _ {R : Type 0} where
  -- The element of the name is there, with onworkspace set.
  abbrev pub IsPlaced : Dict (Element R) → String → Type 0
  IsPlaced m n = (e : Element R) × (find n m ≡ some e) × (e.onworkspace ≡ true)

  pub Moves-IsPlaced :
      (m m' : Dict (Element R)) (n : String) → Moves m m' → IsPlaced m n → IsPlaced m' n
  Moves-IsPlaced m m' n s (e, f, p) = let (e', f', l) = s.forth n e f in (e', f', l.onworkspace p)

  pub Moves-AllPlaced :
      (m m' : Dict (Element R)) (ns : List String)
      → Moves m m'
      → All (IsPlaced m) ns
      → All (IsPlaced m') ns
  Moves-AllPlaced m m' ns s = All-map ns (λ n. Moves-IsPlaced m m' n s)

  abbrev pub placed_now : Element R → Element R
  placed_now e = record e { onworkspace = true }

  pub find-placed :
      (n : String) (e : Element R) (m : Dict (Element R)) (j : String) (e' : Element R)
      → find j (assign n (placed_now e) m) ≡ some e'
      → ((n ≡ j) × (e' ≡ placed_now e)) ⊎ ((str_eq n j ≡ false) × (find j m ≡ some e'))
  find-placed n e m j e' h = ground (arith, find-assign n j (placed_now e) m, eq_iff n j)

  pub placed-IsLater : (e : Element R) → IsLater e (placed_now e)
  placed-IsLater e = record {
    id = refl;
    kind = refl;
    dependants = refl;
    ready = λ h. h;
    onworkspace = λ h. refl;
  }

  pub placed-Moves :
      (n : String) (e : Element R) (m : Dict (Element R))
      → find n m ≡ some e
      → Moves m (assign n (placed_now e) m)
  placed-Moves n e m f = record {
    forth = λ j e1 g. elim (Bool-cases (str_eq n j)) [
      | inl same ↦
          let at : e1 ≡ e = ground (arith, eq_iff n j) in
          (placed_now e1, ground (arith, find-assign n j (placed_now e) m), placed-IsLater e1)
      | inr other ↦ (e1, ground (arith, find-assign n j (placed_now e) m), IsLater-refl e1)
    ];
    back = λ j e' g. elim (find-placed n e m j e' g) [
      | inl (same, it) ↦ (e, ground arith, subst (IsLater e) (sym it) (placed-IsLater e))
      | inr (other, old) ↦ (e', old, IsLater-refl e')
    ];
  }

module _ {W R : Type 0} (roo : Workspace W R) where
  pub record IsSafe (s : Site W R) : Type 0 where
    pub keyed : IsKeyed s.elements
    pub closed : IsClosed s.elements
    pub present :
        (n : String) (e : Element R)
        → find n s.elements ≡ some e
        → e.onworkspace ≡ true
        → (o : RooObject R) × (get_roo_obj_from_workspace roo e s.ws ≡ some o)
    pub absent :
        (n : String) (e : Element R)
        → find n s.elements ≡ some e
        → e.onworkspace ≡ false
        → roo.obj s.ws n ≡ none
    pub deep :
        (n : String) (e : Element R)
        → find n s.elements ≡ some e
        → e.onworkspace ≡ true
        → All (IsPlaced s.elements) e.dependants

  abbrev pub IsPresent : Element R → W → Type 0
  IsPresent e w = (o : RooObject R) × (get_roo_obj_from_workspace roo e w ≡ some o)

  pub IsPresent-later :
      (e e' : Element R) (w : W)
      → e'.id_abs ≡ e.id_abs
      → e'.kind ≡ e.kind
      → IsPresent e w
      → IsPresent e' w
  unfolding get_roo_obj_from_workspace
  IsPresent-later e e' w i k (o, q) = (o, rw (i, k) q)

  -- A check of readiness keeps it.
  pub Flags-IsSafe :
      (s : Site W R) (m : Dict (Element R))
      → Flags s.elements m
      → IsSafe s
      → IsSafe (record s { elements = m })
  Flags-IsSafe s m f safe =
      let moves = Flags-Moves s.elements m f in
      record {
        keyed = Moves-IsKeyed s.elements m moves safe.keyed;
        closed = Flags-IsClosed s.elements m f safe.closed;
        present = λ n e g p. elim (f n) [
          | inl same ↦ safe.present n e (cc) p
          | inr (e0, f0, f1, b) ↦
              IsPresent-later e0 e s.ws ground (arith) ground (arith)
                (safe.present n e0 f0 ground (arith))
        ];
        absent = λ n e g p. elim (f n) [
          | inl same ↦ safe.absent n e (cc) p
          | inr (e0, f0, f1, b) ↦ safe.absent n e0 f0 ground (arith)
        ];
        deep = λ n e g p. elim (f n) [
          | inl same ↦ Moves-AllPlaced s.elements m e.dependants moves (safe.deep n e (cc) p)
          | inr (e0, f0, f1, b) ↦
              let at : e ≡ record e0 { ready = true } = ground arith in
              rw at (
                Moves-AllPlaced s.elements m e0.dependants moves (safe.deep n e0 f0 ground (arith)))
        ];
      }
