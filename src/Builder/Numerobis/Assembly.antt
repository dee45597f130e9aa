-- ===== src/Builder/Numerobis/Assembly.antt =====
-- elements/factory.h: the functions of Factory, and a history of them on a new Registrar.
use doo_fit.Base.{
  String, true, false, Option, none, some, List, [], ◌∷◌, find, assign, insert, str_eq, sym, subst,
  ◌∙◌, find-assign, eq_iff, has_key, Option-cases, Bool-cases, inl, inr, ◌≡◌, refl, arith,
}
use doo_fit.Builder.Numerobis.Element.{
  Kind, dim_real_of, param_basic_of, formula_of, note, Element, Registrar, dim_real, param_basic,
  formula, empty, declare,
}
use doo_fit.Builder.Numerobis.Buildable.{Supplied, done}
use doo_fit.Builder.Numerobis.Decision.{false-eq-true}
use doo_fit.Builder.Numerobis.Registration.{Workspace}
use doo_fit.Builder.Numerobis.Safety.{IsSafe}

-- The calls of AssembleDimReal, AssembleParamBasic with and without a range, and AssembleFormula.
pub data Assembly (R : Type 0) : Type 0 where
  assembles_dim_real :
      (id_rel id_abs desc : String) (val_min val_max : R) (unit : String) → Assembly R
  assembles_param_basic :
      (id_rel id_abs desc : String) (val_init val_min val_max : R) (unit : String) → Assembly R
  assembles_free_param : (id_rel id_abs desc : String) (val_init : R) (unit : String) → Assembly R
  assembles_formula : (id_rel id_abs text : String) → List String → Assembly R

module _ {R : Type 0} where
  abbrev pub element_of : Assembly R → Element R
  element_of (assembles_dim_real id_rel id_abs desc low high unit) =
      dim_real id_rel id_abs desc low high unit
  element_of (assembles_param_basic id_rel id_abs desc value low high unit) =
      param_basic id_rel id_abs desc value low high unit
  element_of (assembles_free_param id_rel id_abs desc value unit) =
      param_basic id_rel id_abs desc value value value unit
  element_of (assembles_formula id_rel id_abs text elements) = formula id_rel id_abs text elements

  abbrev pub assemble_next :
      (Registrar R → Option (Registrar R)) → Option (Registrar R) → Option (Registrar R)
  assemble_next f none = none
  assemble_next f (some r) = f r

  -- none where a name is declared twice.
  unfoldable pub assemble_all : List (Assembly R) → Registrar R → Option (Registrar R)
  assemble_all [] r = some r
  assemble_all (a ∷ as_) r = assemble_next (assemble_all as_) (declare (element_of a) r)

  -- As the constructors leave an element: not on a workspace, and ready only without dependants.
  record IsFresh (e : Element R) : Type 0 where
    placed_not : e.onworkspace ≡ false
    ready_alone : e.ready ≡ true → e.dependants ≡ []

  element_of-IsFresh : (a : Assembly R) → IsFresh (element_of a)
  unfolding dim_real param_basic formula
  element_of-IsFresh (assembles_dim_real i n d l h u) = record {
    placed_not = refl;
    ready_alone = λ r. refl;
  }
  element_of-IsFresh (assembles_param_basic i n d v l h u) = record {
    placed_not = refl;
    ready_alone = λ r. refl;
  }
  element_of-IsFresh (assembles_free_param i n d v u) = record {
    placed_not = refl;
    ready_alone = λ r. refl;
  }
  element_of-IsFresh (assembles_formula i n t l) = record {
    placed_not = refl;
    ready_alone = λ r. ground arith;
  }

  abbrev AllFresh : Registrar R → Type 0
  AllFresh r =
      (n : String) (e : Element R) → find n r.elements ≡ some e → (e.id_abs ≡ n) × IsFresh e

  note-elements : (k : Kind R) (n : String) (r : Registrar R) → (note k n r).elements ≡ r.elements
  note-elements (dim_real_of d u l h) n r = refl
  note-elements (param_basic_of d u v l h) n r = refl
  note-elements (formula_of f) n r = refl

  pub declare-new :
      (e : Element R) (r r' : Registrar R)
      → declare e r ≡ some r'
      → has_key e.id_abs r.elements ≡ false
  unfolding declare
  declare-new e r r' h = ground arith

  pub declare-elements :
      (e : Element R) (r r' : Registrar R)
      → declare e r ≡ some r'
      → r'.elements ≡ assign e.id_abs e r.elements
  unfolding declare insert has_key
  declare-elements e r r' h =
      ground (
        arith,
        note-elements e.kind e.id_abs (record r { elements = insert e.id_abs e r.elements }),
      )

  declare-AllFresh :
      (e : Element R) (r r' : Registrar R)
      → IsFresh e
      → AllFresh r
      → declare e r ≡ some r'
      → AllFresh r'
  declare-AllFresh e r r' fresh all h n e' f =
      let g : find n (assign e.id_abs e r.elements) ≡ some e' =
        rw (declare-elements e r r' h) at f in
      elim (Bool-cases (str_eq e.id_abs n)) [
        | inl same ↦
            let at : e ≡ e' = ground (arith, find-assign e.id_abs n e r.elements) in
            (ground (arith, eq_iff e.id_abs n), subst IsFresh at fresh)
        | inr other ↦ all n e' ground (arith, find-assign e.id_abs n e r.elements)
      ]

  assemble_all-AllFresh :
      (as_ : List (Assembly R)) (r r' : Registrar R)
      → AllFresh r
      → assemble_all as_ r ≡ some r'
      → AllFresh r'
  unfolding assemble_all
  assemble_all-AllFresh [] r r' all h = let same : r ≡ r' = ground arith in subst AllFresh same all
  assemble_all-AllFresh (a ∷ as_) r r' all h = elim (Option-cases (declare (element_of a) r)) [
    | inl no_ ↦ ground arith
    | inr (r1, e) ↦
        assemble_all-AllFresh as_ r1 r'
          (declare-AllFresh (element_of a) r r1 (element_of-IsFresh a) all e) (rw e at h)
  ]

module _ {W R : Type 0} (roo : Workspace W R) where
  AllFresh-IsSafe :
      (r : Registrar R) (w : W)
      → AllFresh r
      → ((n : String) → has_key n r.elements ≡ true → roo.obj w n ≡ none)
      → IsSafe roo (record { elements = r.elements; ws = w })
  unfolding has_key
  AllFresh-IsSafe r w all free = record {
    keyed = λ n e f. (all n e f).0;
    closed = λ n e f u. subst (Supplied r.elements) (sym ((all n e f).1.ready_alone u)) done;
    present = λ n e f p. absurd (false-eq-true (sym (all n e f).1.placed_not ∙ p));
    absent = λ n e f p. free n ground (arith);
    deep = λ n e f p. absurd (false-eq-true (sym (all n e f).1.placed_not ∙ p));
  }

  -- If assembling any elements on a new Registrar takes no name twice, and the workspace has no object
  -- of these names, then the state is safe for Register: keys are names, ready elements have all their
  -- dependants, and no element is marked as being on the workspace.
  pub assemble_all-IsSafe :
      (as_ : List (Assembly R)) (r : Registrar R) (w : W)
      → assemble_all as_ empty ≡ some r
      → ((n : String) → has_key n r.elements ≡ true → roo.obj w n ≡ none)
      → IsSafe roo (record { elements = r.elements; ws = w })
  unfolding empty find
  assemble_all-IsSafe as_ r w h free =
      AllFresh-IsSafe r w (assemble_all-AllFresh as_ empty r (λ n e f. ground arith) h) free
