-- ===== src/Builder/Numerobis/Element.antt =====
-- numerobis/blueprint/elements: Element, DimReal, ParamBasic, Formula, and the declarations of
-- Registrar. `R` stands for double.
use doo_fit.Base.{
  String, Bool, true, false, Option, none, some, List, [], ◌∷◌, Dict, insert, has_key,
  if◌then◌else◌,
}

-- What the subclasses of Element keep.
pub data Kind (R : Type 0) : Type 0 where
  dim_real_of : (desc unit : String) (val_min val_max : R) → Kind R
  param_basic_of : (desc unit : String) (val_init val_min val_max : R) → Kind R
  formula_of : (formula : String) → Kind R

pub record Element (R : Type 0) : Type 0 where
  pub id_rel : String
  pub id_abs : String
  pub kind : Kind R
  pub dependants : List String
  pub initialized : Bool
  pub ready : Bool
  pub onworkspace : Bool

-- Registrar: the elements by name, and the names of each kind.
pub record Registrar (R : Type 0) : Type 0 where
  pub elements : Dict (Element R)
  pub dim_reals : List String
  pub param_basics : List String
  pub formulas : List String

module _ {R : Type 0} where
  -- The constructors of the subclasses.
  unfoldable pub dim_real :
      (id_rel id_abs desc : String) (val_min val_max : R) (unit : String) → Element R
  dim_real id_rel id_abs desc val_min val_max unit = record {
    id_rel = id_rel;
    id_abs = id_abs;
    kind = dim_real_of desc unit val_min val_max;
    dependants = [];
    initialized = true;
    ready = true;
    onworkspace = false;
  }

  unfoldable pub param_basic :
      (id_rel id_abs desc : String) (val_init val_min val_max : R) (unit : String) → Element R
  param_basic id_rel id_abs desc val_init val_min val_max unit = record {
    id_rel = id_rel;
    id_abs = id_abs;
    kind = param_basic_of desc unit val_init val_min val_max;
    dependants = [];
    initialized = true;
    ready = true;
    onworkspace = false;
  }

  unfoldable pub formula : (id_rel id_abs text : String) → List String → Element R
  formula id_rel id_abs text elements = record {
    id_rel = id_rel;
    id_abs = id_abs;
    kind = formula_of text;
    dependants = elements;
    initialized = true;
    ready = false;
    onworkspace = false;
  }

  unfoldable pub empty : Registrar R
  empty = record { elements = []; dim_reals = []; param_basics = []; formulas = [] }

  -- The set of Registrar that takes the name.
  abbrev pub note : Kind R → String → Registrar R → Registrar R
  note (dim_real_of _ _ _ _) n r = record r { dim_reals = n ∷ r.dim_reals }
  note (param_basic_of _ _ _ _ _) n r = record r { param_basics = n ∷ r.param_basics }
  note (formula_of _) n r = record r { formulas = n ∷ r.formulas }

  -- Declare. The container owns the element and deletes it where the name is taken; Declare then
  -- reads the name of the deleted element, which is undefined: none.
  unfoldable pub declare : Element R → Registrar R → Option (Registrar R)
  declare e r =
      if has_key e.id_abs r.elements
      then none
      else some (note e.kind e.id_abs (record r { elements = insert e.id_abs e r.elements }))
