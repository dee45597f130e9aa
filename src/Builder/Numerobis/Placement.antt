-- ===== src/Builder/Numerobis/Placement.antt =====
-- Registrar::Register puts a buildable element and all its dependants on the workspace.
use doo_fit.Base.{
  String, true, false, none, some, List, [], ◌∷◌, All, find, assign, str_eq, inl, inr, ◌≡◌, refl,
  sym, ◌∙◌, arith,
}
use doo_fit.Builder.Numerobis.Element.{Kind, dim_real_of, param_basic_of, formula_of, Element}
use doo_fit.Builder.Numerobis.Moves.{Moves-Supplied, Moves-IsKeyed}
use doo_fit.Builder.Numerobis.Safety.{
  Laws, IsPlaced, Moves-AllPlaced, placed_now, find-placed, placed-Moves, IsSafe, IsPresent,
  IsPresent-later,
}
use doo_fit.Builder.Numerobis.Registration.{
  RooObject, Workspace, Site, formula_var, Pointer, vector_to_arg_list, has_class,
  create_temp_roo_obj, get_roo_obj_from_workspace,
}

module _ {R : Type 0} where
  abbrev pub IsSome : Pointer R → Type 0
  IsSome p = (o : RooObject R) × (p ≡ some o)

  vector_to_arg_list-some :
      (ps : List (Pointer R))
      → All IsSome ps
      → (ns : List String) × (vector_to_arg_list ps ≡ some ns)
  vector_to_arg_list-some [] a = ([], refl)
  vector_to_arg_list-some (none ∷ ps) ((o, e), a) = ground arith
  vector_to_arg_list-some (some p ∷ ps) (e, a) =
      let (ns, q) = vector_to_arg_list-some ps a in (p.name ∷ ns, rw q refl)

module _ {W R : Type 0} (roo : Workspace W R) where
  pub create_temp_roo_obj-some :
      (k : Kind R) (id : String) (ps : List (Pointer R))
      → All IsSome ps
      → (o : RooObject R) × (create_temp_roo_obj roo k id ps ≡ some o)
        × (o.name ≡ id)
        × (has_class k o.shape ≡ true)
  unfolding create_temp_roo_obj
  create_temp_roo_obj-some (dim_real_of d u l h) id ps a = (_, refl, refl, refl)
  create_temp_roo_obj-some (param_basic_of d u v l h) id ps a = (_, refl, refl, ground arith)
  create_temp_roo_obj-some (formula_of f) id ps a =
      let (ns, q) = vector_to_arg_list-some ps a in
      (record { name = id; shape = formula_var f ns }, rw q refl, refl, refl)

  -- The state after an import.
  abbrev pub imported : String → Element R → RooObject R → Site W R → Site W R
  imported n e o s = record {
    elements = assign n (placed_now e) s.elements;
    ws = roo.import_obj o s.ws;
  }

  module _ (laws : Laws roo) where
    pub import_obj-some :
        (e : Element R) (o : RooObject R) (w : W)
        → o.name ≡ e.id_abs
        → has_class e.kind o.shape ≡ true
        → roo.obj w e.id_abs ≡ none
        → get_roo_obj_from_workspace roo e (roo.import_obj o w) ≡ some o
    unfolding get_roo_obj_from_workspace
    import_obj-some e o w same c new = rw (sym same, laws.import_new o w (rw same new), c) refl

    import-IsPresent :
        (e : Element R) (o : RooObject R) (w : W)
        → str_eq o.name e.id_abs ≡ false
        → IsPresent roo e w
        → IsPresent roo e (roo.import_obj o w)
    unfolding get_roo_obj_from_workspace
    import-IsPresent e o w other (p, q) = (p, rw (laws.import_others o w e.id_abs other) q)

    pub import-IsSafe :
        (n : String) (e : Element R) (o : RooObject R) (s : Site W R)
        → IsSafe roo s
        → find n s.elements ≡ some e
        → e.onworkspace ≡ false
        → o.name ≡ e.id_abs
        → has_class e.kind o.shape ≡ true
        → All (IsPlaced s.elements) e.dependants
        → IsSafe roo (imported n e o s)
    import-IsSafe n e o s safe f off same c deps =
        let moves = placed-Moves n e s.elements f in
        let key : e.id_abs ≡ n = safe.keyed n e f in
        record {
          keyed = Moves-IsKeyed s.elements (imported n e o s).elements moves safe.keyed;
          closed = λ j e' g r. elim (find-placed n e s.elements j e' g) [
            | inl (at, it) ↦ rw it (
                Moves-Supplied s.elements (imported n e o s).elements e.dependants moves
                  (safe.closed n e f ground (arith)))
            | inr (other, old) ↦
                Moves-Supplied s.elements (imported n e o s).elements e'.dependants moves
                  (safe.closed j e' old r)
          ];
          present = λ j e' g r. elim (find-placed n e s.elements j e' g) [
            | inl (at, it) ↦
                IsPresent-later roo e e' _ ground (arith) ground (arith)
                  (o, import_obj-some e o s.ws same c (rw key (safe.absent n e f off)))
            | inr (other, old) ↦
                import-IsPresent e' o s.ws (rw (same, key, safe.keyed j e' old) other)
                  (safe.present j e' old r)
          ];
          absent = λ j e' g r. elim (find-placed n e s.elements j e' g) [
            | inl (at, it) ↦ ground arith
            | inr (other, old) ↦
                laws.import_others o s.ws j (rw (same, key) other) ∙ safe.absent j e' old r
          ];
          deep = λ j e' g r. elim (find-placed n e s.elements j e' g) [
            | inl (at, it) ↦
                rw it
                  (Moves-AllPlaced s.elements (imported n e o s).elements e.dependants moves deps)
            | inr (other, old) ↦
                Moves-AllPlaced s.elements (imported n e o s).elements e'.dependants moves
                  (safe.deep j e' old r)
          ];
        }
