-- ===== src/Builder/Numerobis/Guarantee.antt =====
-- Registrar::Register returns, without an exception, and puts a buildable element and all its
-- dependants on the workspace.
use doo_fit.Base.{
  ℕ, zero, suc, ◌<◌, String, true, Option, none, some, List, [], ◌∷◌, All, Dict, find, inl, inr,
  ◌⊎◌, ◌≡◌, refl, sym, arith,
}
use doo_fit.Builder.Numerobis.Element.{Element}
use doo_fit.Builder.Numerobis.Readiness.{check_ready}
use doo_fit.Builder.Numerobis.Buildable.{
  Supplied, done, flagged, supplied, Supplied-head, IsBuildable, Flags,
}
use doo_fit.Builder.Numerobis.Decision.{undeclared}
use doo_fit.Builder.Numerobis.Termination.{
  IsRanked, All-lt, check_ready-decided, check_ready_lem, check_ready-ready_in,
}
use doo_fit.Builder.Numerobis.Moves.{
  Moves-refl, Moves-trans, Moves-Supplied, Moves-IsRanked, Flags-Moves,
}
use doo_fit.Builder.Numerobis.Safety.{Laws, Moves-IsPlaced, IsSafe, Flags-IsSafe}
use doo_fit.Builder.Numerobis.Registration.{
  Workspace, Site, returned, register_dependant, register_dependants, register_found, register,
}
use doo_fit.Builder.Numerobis.Registered.{
  Places, PlacesAll, register_dependants-cons, register_dependants-nil, add_to_workspace-Places,
}

module _ {W R : Type 0} (roo : Workspace W R) (laws : Laws roo) where
  module _ (rank : String → ℕ) (fuel : ℕ)
      (go : (n : String) (s : Site W R)
        → IsSafe roo s
        → IsRanked rank s.elements
        → rank n < fuel
        → IsBuildable s.elements n
        → Places roo (register roo fuel n s) s n) where
    register_dependant-Places :
        (d : String) (x : Option (Element R)) (s : Site W R)
        → IsSafe roo s
        → IsRanked rank s.elements
        → rank d < fuel
        → IsBuildable s.elements d
        → find d s.elements ≡ x
        → Places roo (register_dependant roo (register roo fuel) x s) s d
    register_dependant-Places d none s safe ranked low b f = absurd (undeclared s.elements d [] f b)
    register_dependant-Places d (some e) s safe ranked low b f =
        rw (safe.keyed d e f) (go d s safe ranked low b)

    register_dependants-PlacesAll :
        (ds : List String) (s : Site W R)
        → IsSafe roo s
        → IsRanked rank s.elements
        → All (λ d. rank d < fuel) ds
        → Supplied s.elements ds
        → PlacesAll roo (register_dependants roo (register roo fuel) ds s) s ds
    register_dependants-PlacesAll [] s safe ranked low b = record {
      objects = [];
      site = s;
      result = register_dependants-nil roo (register roo fuel) s;
      all_some = tt;
      moves = Moves-refl s.elements;
      safe = safe;
      placed = tt;
    }
    register_dependants-PlacesAll (d ∷ ds) s safe ranked low b =
        let (b0, bs) = Supplied-head s.elements d ds b in
        let one = register_dependant-Places d (find d s.elements) s safe ranked low.0 b0 refl in
        let more =
          register_dependants-PlacesAll ds one.site one.safe
            (Moves-IsRanked rank s.elements one.site.elements one.moves ranked) low.1
            (Moves-Supplied s.elements one.site.elements ds one.moves bs) in
        record {
          objects = some one.object ∷ more.objects;
          site = more.site;
          result =
              register_dependants-cons roo (register roo fuel) d ds s one.site more.site
                (some one.object) more.objects one.result more.result;
          all_some = ((one.object, refl), more.all_some);
          moves = Moves-trans s.elements one.site.elements more.site.elements one.moves more.moves;
          safe = more.safe;
          placed = (
            Moves-IsPlaced one.site.elements more.site.elements d more.moves one.placed,
            more.placed,
          );
        }

    register_found-Places :
        (n : String) (e : Element R) (s : Site W R)
        → IsSafe roo s
        → IsRanked rank s.elements
        → rank n < suc fuel
        → find n s.elements ≡ some e
        → e.ready ≡ true
        → Places roo (register_found roo (register roo fuel) n (some e) s) s n
    register_found-Places n e s safe ranked low f r =
        let all =
          register_dependants-PlacesAll e.dependants s safe ranked
            (All-lt rank (rank n) fuel e.dependants (ranked n e f) low) (safe.closed n e f r) in
        let (e2, f2, l2) = all.moves.forth n e f in
        let last =
          add_to_workspace-Places roo laws n e2 all.objects all.site all.safe f2 (l2.ready r)
            all.all_some (rw l2.dependants all.placed) in
        record {
          object = last.object;
          site = last.site;
          result = rw (all.result, f2) last.result;
          moves = Moves-trans s.elements all.site.elements last.site.elements all.moves last.moves;
          safe = last.safe;
          placed = last.placed;
        }

  Supplied-find :
      (m : Dict (Element R)) (n : String) → IsBuildable m n → (e : Element R) × (find n m ≡ some e)
  Supplied-find m n (flagged _ _ e f r done) = (e, f)
  Supplied-find m n (supplied _ _ e f d done) = (e, f)

  pub register-Places :
      (rank : String → ℕ) (fuel : ℕ) (n : String) (s : Site W R)
      → IsSafe roo s
      → IsRanked rank s.elements
      → rank n < fuel
      → IsBuildable s.elements n
      → Places roo (register roo fuel n s) s n
  unfolding register
  register-Places rank zero n s safe ranked low b = absurd omega (arith, low)
  register-Places rank (suc fuel) n s safe ranked low b =
      let (x, m, e, d) = check_ready-decided rank (suc fuel) n s.elements safe.keyed ranked low in
      let e1 : check_ready (suc fuel) n s.elements ≡ some (true, m) =
        rw (sym (d.complete refl b)) e in
      let (el, f) = Supplied-find s.elements n b in
      let moves = Flags-Moves s.elements m d.flags in
      let (el1, f1, l1) = moves.forth n el f in
      let s1 : Site W R = record s { elements = m } in
      let one =
        register_found-Places rank fuel (register-Places rank fuel) n el1 s1
          (Flags-IsSafe roo s m d.flags safe) (Moves-IsRanked rank s.elements m moves ranked) low f1
          ground (arith, check_ready-ready_in (suc fuel) n s.elements true m e1) in
      record {
        object = one.object;
        site = one.site;
        result = rw (e1, f1) one.result;
        moves = Moves-trans s.elements m one.site.elements moves one.moves;
        safe = one.safe;
        placed = one.placed;
      }

  -- With a workspace that imports as documented, from a state that is safe, if the dependants of every
  -- element rank below it: Register(n) returns. If n is buildable, it returns an object, n and all its
  -- dependants, down to the last, are on the workspace, and the state is safe; if not, it returns a null
  -- pointer and changes nothing but flags of buildable names. It never throws.
  pub register_lem :
      (rank : String → ℕ) (fuel : ℕ) (n : String) (s : Site W R)
      → IsSafe roo s
      → IsRanked rank s.elements
      → rank n < fuel
      → (IsBuildable s.elements n × Places roo (register roo fuel n s) s n)
        ⊎ ((IsBuildable s.elements n → ⊥)
            × (m : Dict (Element R)) × (register roo fuel n s
                ≡ (returned none, record s { elements = m }))
            × Flags s.elements m)
  unfolding register
  register_lem rank zero n s safe ranked low = absurd omega (arith, low)
  register_lem rank (suc fuel) n s safe ranked low =
      let (m, right, flags) = check_ready_lem rank (suc fuel) n s.elements safe.keyed ranked low in
      elim right [
        | inl (e, b) ↦ inl (b, register-Places rank (suc fuel) n s safe ranked low b)
        | inr (e, b) ↦ inr (b, m, rw e refl, flags)
      ]
