-- ===== src/Builder/Numerobis/Registration.antt =====
-- elements/registrar.cpp: Registrar::Register; elements/element.cpp: Element::AddToWorkspace; and
-- CreateTempRooObj and GetRooObjFromWorkspace of DimReal, ParamBasic and Formula.
use doo_fit.Base.{
  ℕ, zero, suc, String, Bool, true, false, ◌&&◌, Option, none, some, List, [], ◌∷◌, Dict, find,
  assign, if◌then◌else◌,
}
use doo_fit.Builder.Numerobis.Element.{Kind, dim_real_of, param_basic_of, formula_of, Element}
use doo_fit.Builder.Numerobis.Readiness.{Check, check_ready}

-- RooRealVar without a range and with one, and RooFormulaVar; a dependant is its name.
pub data Shape (R : Type 0) : Type 0 where
  free_var : (title unit : String) (value : R) → Shape R
  bounded_var : (title unit : String) (value : Option R) (low high : R) → Shape R
  formula_var : (formula : String) (dependants : List String) → Shape R

pub record RooObject (R : Type 0) : Type 0 where
  pub name : String
  pub shape : Shape R

-- RooWorkspace with values in `W`, and the equality of doubles.
pub record Workspace (W R : Type 0) : Type 0 where
  pub import_obj : RooObject R → W → W
  pub obj : W → String → Option (RooObject R)
  pub same : R → R → Bool

-- What a call comes to: it returns, it throws UnexpectedException, it ends the program by a `throw`
-- with no exception at hand, it uses a null pointer, or it does not return within the fuel.
pub data Outcome (A : Type 0) : Type 0 where
  returned : A → Outcome A
  unexpected terminated null_pointer unfinished : Outcome A

-- The elements of the registrar, and the workspace.
pub record Site (W R : Type 0) : Type 0 where
  pub elements : Dict (Element R)
  pub ws : W

abbrev pub Run : Type 0 → Type 0 → Type 0 → Type 0
Run W R A = Outcome A × Site W R

abbrev pub Pointer : Type 0 → Type 0
Pointer R = Option (RooObject R)

module _ {W R : Type 0} where
  abbrev pub after : {A B : Type 0} → Run W R A → (A → Site W R → Run W R B) → Run W R B
  after (returned a, s) f = f a s
  after (unexpected, s) f = (unexpected, s)
  after (terminated, s) f = (terminated, s)
  after (null_pointer, s) f = (null_pointer, s)
  after (unfinished, s) f = (unfinished, s)

module _ {R : Type 0} where
  -- VectorToArgList dereferences every pointer.
  abbrev pub vector_to_arg_list : List (Pointer R) → Option (List String)
  vector_to_arg_list [] = some []
  vector_to_arg_list (none ∷ ps) = none
  vector_to_arg_list (some o ∷ ps) = elim (vector_to_arg_list ps) [
    | none ↦ none
    | some ns ↦ some (o.name ∷ ns)
  ]

  abbrev pub formula_obj : String → String → Option (List String) → Pointer R
  formula_obj id text none = none
  formula_obj id text (some ns) = some (record { name = id; shape = formula_var text ns })

  -- Whether an object has the class that an element of the kind expects.
  abbrev pub has_class : Kind R → Shape R → Bool
  has_class (formula_of _) (formula_var _ _) = true
  has_class (formula_of _) _ = false
  has_class _ (formula_var _ _) = false
  has_class _ _ = true

  -- GetRooObjFromWorkspace: the object of the name, if it has the class.
  abbrev pub cast : Kind R → Pointer R → Pointer R
  cast k none = none
  cast k (some o) = if has_class k o.shape then some o else none

module _ {W R : Type 0} (roo : Workspace W R) where
  -- CreateTempRooObj
  unfoldable pub create_temp_roo_obj : Kind R → String → List (Pointer R) → Pointer R
  create_temp_roo_obj (dim_real_of desc unit low high) id dependants =
      some (record { name = id; shape = bounded_var desc unit none low high })
  create_temp_roo_obj (param_basic_of desc unit value low high) id dependants = some (record {
    name = id;
    shape =
        if roo.same high value && roo.same low value
        then free_var desc unit value
        else bounded_var desc unit (some value) low high;
  })
  create_temp_roo_obj (formula_of text) id dependants =
      formula_obj id text (vector_to_arg_list dependants)

  unfoldable pub get_roo_obj_from_workspace : Element R → W → Pointer R
  get_roo_obj_from_workspace e w = cast e.kind (roo.obj w e.id_abs)

  -- The import of the temporary object, and set_onworkspace(true).
  abbrev pub import_temp : String → Element R → Pointer R → Site W R → Run W R (Pointer R)
  import_temp n e none s = (null_pointer, s)
  import_temp n e (some o) s =
      let w = roo.import_obj o s.ws in
      (
        returned (get_roo_obj_from_workspace e w),
        record { elements = assign n (record e { onworkspace = true }) s.elements; ws = w },
      )

  -- AddToWorkspace
  unfoldable pub add_to_workspace :
      String → Element R → List (Pointer R) → Site W R → Run W R (Pointer R)
  add_to_workspace n e dependants s =
      if e.ready
      then if e.onworkspace
        then (returned (get_roo_obj_from_workspace e s.ws), s)
        else import_temp n e (create_temp_roo_obj e.kind e.id_abs dependants) s
      else (terminated, s)

  abbrev pub add_found :
      String → Option (Element R) → List (Pointer R) → Site W R → Run W R (Pointer R)
  add_found n none dependants s = (null_pointer, s)
  add_found n (some e) dependants s = add_to_workspace n e dependants s

  module _ (register : String → Site W R → Run W R (Pointer R)) where
    abbrev pub register_dependant : Option (Element R) → Site W R → Run W R (Pointer R)
    register_dependant none s = (unexpected, s)
    register_dependant (some e) s = register e.id_abs s

    -- The loop over the dependants: the pointers in their order.
    unfoldable pub register_dependants : List String → Site W R → Run W R (List (Pointer R))
    register_dependants [] s = (returned [], s)
    register_dependants (d ∷ ds) s =
        after (register_dependant (find d s.elements) s)
          (λ p s1. after (register_dependants ds s1) (λ ps s2. (returned (p ∷ ps), s2)))

    abbrev pub register_found : String → Option (Element R) → Site W R → Run W R (Pointer R)
    register_found n none s = (null_pointer, s)
    register_found n (some e) s =
        after (register_dependants e.dependants s) (λ ps s1. add_found n (find n s1.elements) ps s1)

    -- What follows CheckReady.
    abbrev pub register_checked : String → Check R → Site W R → Run W R (Pointer R)
    register_checked n none s = (unfinished, s)
    register_checked n (some (false, m)) s = (returned none, record s { elements = m })
    register_checked n (some (true, m)) s = register_found n (find n m) (record s { elements = m })

  unfoldable pub register : ℕ → String → Site W R → Run W R (Pointer R)
  register zero n s = (unfinished, s)
  register (suc fuel) n s =
      register_checked (register fuel) n (check_ready (suc fuel) n s.elements) s
