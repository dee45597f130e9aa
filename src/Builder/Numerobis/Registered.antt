-- ===== src/Builder/Numerobis/Registered.antt =====
-- What a successful call of Registrar::Register leaves, and that Element::AddToWorkspace leaves it.
use doo_fit.Base.{
  String, true, false, some, List, [], ◌∷◌, All, find, find-assign_self, Bool-cases, inl, inr, ◌≡◌,
  refl, sym, subst, ◌∙◌, arith,
}
use doo_fit.Builder.Numerobis.Element.{Element}
use doo_fit.Builder.Numerobis.Moves.{Moves, Moves-refl}
use doo_fit.Builder.Numerobis.Safety.{Laws, IsPlaced, placed-Moves, placed_now, IsSafe}
use doo_fit.Builder.Numerobis.Placement.{
  IsSome, imported, create_temp_roo_obj-some, import_obj-some, import-IsSafe,
}
use doo_fit.Builder.Numerobis.Registration.{
  RooObject, Workspace, Site, Pointer, Run, returned, has_class, get_roo_obj_from_workspace,
  import_temp, create_temp_roo_obj, add_to_workspace, register_dependant, register_dependants,
}

module _ {W R : Type 0} (roo : Workspace W R) where
  -- The call returns an object, and the name is on the workspace.
  pub record Places (r : Run W R (Pointer R)) (s : Site W R) (n : String) : Type 0 where
    pub object : RooObject R
    pub site : Site W R
    pub result : r ≡ (returned (some object), site)
    pub moves : Moves s.elements site.elements
    pub safe : IsSafe roo site
    pub placed : IsPlaced site.elements n

  pub record PlacesAll (r : Run W R (List (Pointer R))) (s : Site W R) (ns : List String)
      : Type 0 where
    pub objects : List (Pointer R)
    pub site : Site W R
    pub result : r ≡ (returned objects, site)
    pub all_some : All IsSome objects
    pub moves : Moves s.elements site.elements
    pub safe : IsSafe roo site
    pub placed : All (IsPlaced site.elements) ns

  add_to_workspace-on :
      (n : String) (e : Element R) (ps : List (Pointer R)) (s : Site W R)
      → e.ready ≡ true
      → e.onworkspace ≡ true
      → add_to_workspace roo n e ps s ≡ (returned (get_roo_obj_from_workspace roo e s.ws), s)
  unfolding add_to_workspace
  add_to_workspace-on n e ps s r on = ground arith

  add_to_workspace-off :
      (n : String) (e : Element R) (ps : List (Pointer R)) (s : Site W R)
      → e.ready ≡ true
      → e.onworkspace ≡ false
      → add_to_workspace roo n e ps s
        ≡ import_temp roo n e (create_temp_roo_obj roo e.kind e.id_abs ps) s
  unfolding add_to_workspace
  add_to_workspace-off n e ps s r off = ground arith

  pub register_dependants-cons :
      (f : String → Site W R → Run W R (Pointer R)) (d : String) (ds : List String)
      (s s1 s2 : Site W R) (o : Pointer R) (os : List (Pointer R))
      → register_dependant roo f (find d s.elements) s ≡ (returned o, s1)
      → register_dependants roo f ds s1 ≡ (returned os, s2)
      → register_dependants roo f (d ∷ ds) s ≡ (returned (o ∷ os), s2)
  unfolding register_dependants
  register_dependants-cons f d ds s s1 s2 o os h k = simp (h, k)

  pub register_dependants-nil :
      (f : String → Site W R → Run W R (Pointer R)) (s : Site W R)
      → register_dependants roo f [] s ≡ (returned [], s)
  unfolding register_dependants
  register_dependants-nil f s = refl

  module _ (laws : Laws roo) where
    import_temp-Places :
        (n : String) (e : Element R) (o : RooObject R) (p : Pointer R) (s : Site W R)
        → IsSafe roo s
        → find n s.elements ≡ some e
        → e.onworkspace ≡ false
        → o.name ≡ e.id_abs
        → has_class e.kind o.shape ≡ true
        → All (IsPlaced s.elements) e.dependants
        → p ≡ some o
        → Places (import_temp roo n e p s) s n
    import_temp-Places n e o p s safe f off same c deps q = record {
      object = o;
      site = imported roo n e o s;
      result =
          rw
            (
              q,
              import_obj-some roo laws e o s.ws same c
                  (rw (safe.keyed n e f) (safe.absent n e f off)),
            )
            refl;
      moves = placed-Moves n e s.elements f;
      safe = import-IsSafe roo laws n e o s safe f off same c deps;
      placed = (placed_now e, find-assign_self n (placed_now e) s.elements, refl);
    }

    pub add_to_workspace-Places :
        (n : String) (e : Element R) (ps : List (Pointer R)) (s : Site W R)
        → IsSafe roo s
        → find n s.elements ≡ some e
        → e.ready ≡ true
        → All IsSome ps
        → All (IsPlaced s.elements) e.dependants
        → Places (add_to_workspace roo n e ps s) s n
    add_to_workspace-Places n e ps s safe f r a deps = elim (Bool-cases e.onworkspace) [
      | inl on ↦
          let (o, q) = safe.present n e f on in
          record {
            object = o;
            site = s;
            result = add_to_workspace-on n e ps s r on ∙ rw q refl;
            moves = Moves-refl s.elements;
            safe = safe;
            placed = (e, f, on);
          }
      | inr off ↦
          let (o, q, same, c) = create_temp_roo_obj-some roo e.kind e.id_abs ps a in
          subst (λ x. Places x s n) (sym (add_to_workspace-off n e ps s r off))
            (import_temp-Places n e o (create_temp_roo_obj roo e.kind e.id_abs ps) s safe f off same
              c deps q)
    ]
