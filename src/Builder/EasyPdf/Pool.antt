-- ===== src/Builder/EasyPdf/Pool.antt =====
-- The state of EasyPdf, its exceptions, and AddPdfToStore, AddRealToStore and the other functions
-- that put an object into one of the maps. RooFit itself (workspace, class hierarchy) is the
-- parameter `RooFit`. A reference to a RooFit object is written as the object's name.
use doo_fit.Base.{
  String, Bool, true, false, Option, none, some, List, [], Dict, assign, has_key, if◌then◌else◌,
}

-- The classes of the objects that EasyPdf creates.
pub data Class : Type 0 where
  real_var category super_category formula_var unblind_uniform : Class
  gaussian multi_var_gaussian polynomial cb_shape ipatia ipatia2 exponential decay lognormal : Class
  simultaneous generic_pdf prod_pdf extend_pdf add_pdf eff_prod truth_model gauss_model : Class
  add_model gauss_efficiency_model eff_res_add_model b_decay b_mix_decay keys_pdf hist_pdf : Class

-- An object: its class, the names of the objects that its constructor is given, the names of the
-- coefficients, and its formula.
pub record Object : Type 0 where
  pub name : String
  pub class : Class
  pub args : List String
  pub coefs : List String
  pub formula : String

-- The maps of EasyPdf that hold RooFit objects.
pub data Store : Type 0 where
  vars cats supercats formulas hidden_reals external_reals pdfs : Store

-- `RooBinning`, by its name and boundaries; the default binning is unbounded and has none.
pub record BinningObject (R : Type 0) : Type 0 where
  pub name : String
  pub boundaries : List R

pub data Exception : Type 0 where
  object_exists object_not_existing : Exception
  -- The dereference of a null pointer, where C++ has undefined behaviour.
  null_pointer : Exception

pub data Result (A : Type 0) : Type 0 where
  ok : A → Result A
  throw : Exception → Result A

-- RooWorkspace with values in `W`: import, obj, defineSet; `is_a c d` is whether an object of class
-- `c` casts to class `d`; `tokens` is the comma tokenizer of CommaSeparatedList.
pub record RooFit (W : Type 0) : Type 0 where
  pub import_obj : Object → W → W
  pub obj : W → String → Option Object
  pub define_set : String → List String → W → W
  pub is_a : Class → Class → Bool
  pub is_resolution_model : Class → Bool
  pub tokens : String → List String

-- The constructor takes the workspace, or NULL.
pub record EasyPdf (W R : Type 0) : Type 0 where
  pub slot : Store → Dict Object
  pub hists : List String
  pub binnings : Dict (BinningObject R)
  pub variable_sets : Dict String
  pub ws : Option W

abbrev pub same_store : Store → Store → Bool
same_store vars vars = true
same_store cats cats = true
same_store supercats supercats = true
same_store formulas formulas = true
same_store hidden_reals hidden_reals = true
same_store external_reals external_reals = true
same_store pdfs pdfs = true
same_store _ _ = false

-- A function of EasyPdf. The pool outlives an exception.
abbrev pub M : Type 0 → Type 0 → Type 0 → Type 0
M W R A = EasyPdf W R → Result A × EasyPdf W R

module _ {W R : Type 0} where
  unfoldable pub create : Option W → EasyPdf W R
  create w = record { slot = λ _. []; hists = []; binnings = []; variable_sets = []; ws = w }

  -- PurgeAllObjects empties every map; the objects are deleted only if there is no workspace.
  unfoldable pub purge_all_objects : EasyPdf W R → EasyPdf W R
  purge_all_objects s = record s { slot = λ _. []; hists = []; binnings = []; variable_sets = [] }

  abbrev pub put : Store → String → Object → EasyPdf W R → EasyPdf W R
  put t k o s = record s { slot = λ u. if same_store t u then assign k o (s.slot u) else s.slot u }

  abbrev pub pure : {A : Type 0} → A → M W R A
  pure a s = (ok a, s)

  abbrev pub fail : {A : Type 0} → Exception → M W R A
  fail e s = (throw e, s)

  abbrev pub and_then : {A B : Type 0} → Result A → (A → M W R B) → M W R B
  and_then (ok a) f s = f a s
  and_then (throw e) f s = (throw e, s)

  infixl 5 ◌>>=◌ ◌>>◌
  unfoldable pub ◌>>=◌ : {A B : Type 0} → M W R A → (A → M W R B) → M W R B
  ◌>>=◌ m f s = let (r, s') = m s in and_then r f s'

  unfoldable pub ◌>>◌ : {A B : Type 0} → M W R A → M W R B → M W R B
  ◌>>◌ m n s = let (r, s') = m s in and_then r (λ _. n) s'

module _ {W : Type 0} (roo : RooFit W) where
  -- `dynamic_cast<T*>(ws_->obj(name))`
  abbrev pub fetch : Class → String → W → Option Object
  fetch c name w = elim (roo.obj w name) [
    | none ↦ none
    | some o ↦ if roo.is_a o.class c then some o else none
  ]

module _ {W : Type 0} (roo : RooFit W) {R : Type 0} where
  abbrev pub got : Store → String → Option Object → EasyPdf W R → Result Object × EasyPdf W R
  got t k none s = (throw null_pointer, s)
  got t k (some p) s = (ok p, put t k p s)

  abbrev pub keep_in : Store → Object → Option W → EasyPdf W R → Result Object × EasyPdf W R
  keep_in t o none s = (ok o, put t o.name o s)
  keep_in t o (some w) s =
      let w' = roo.import_obj o w in
      got t o.name (fetch roo o.class o.name w') (record s { ws = some w' })

  -- A new object goes into its map, through the workspace if there is one.
  unfoldable pub keep : Store → Object → M W R Object
  keep t o s = keep_in t o s.ws s

  -- An object whose name the map already has is refused.
  unfoldable pub add : Store → Object → M W R Object
  add t o s = if has_key o.name (s.slot t) then (throw object_exists, s) else keep t o s
