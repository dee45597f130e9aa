-- ===== src/Builder/EasyPdf/Access.antt =====
-- EasyPdf.cpp: access to the pool by name (Real to Set, VarList, AllVars, Pdf, Model, Binning).
use doo_fit.Base.{
  String, Bool, ◌||◌, Option, none, some, List, [], ◌∷◌, ◌++◌, Dict, find, assign, has_key,
  if◌then◌else◌, str_eq,
}
use doo_fit.Builder.EasyPdf.Pool.{
  Class, real_var, category, super_category, formula_var, unblind_uniform, Object, Store, vars,
  cats, supercats, formulas, hidden_reals, external_reals, pdfs, BinningObject, object_not_existing,
  object_exists, ok, throw, RooFit, EasyPdf, M, pure, ◌>>=◌, keep, add,
}

abbrev pub make : String → Class → List String → Object
make name class args = record { name = name; class = class; args = args; coefs = []; formula = "" }

abbrev pub or_else : Option Object → Option Object → Option Object
or_else (some o) x = some o
or_else none x = x

abbrev objects : Dict Object → List Object
objects [] = []
objects ((k, o) ∷ m) = o ∷ objects m

abbrev pub names_of : List Object → List String
names_of [] = []
names_of (o ∷ os) = o.name ∷ names_of os

abbrev pub define_in : {W : Type 0} → RooFit W → Option W → String → List Object → Option W
define_in roo none set_name os = none
define_in roo (some w) set_name os = some (roo.define_set set_name (names_of os) w)

module _ {W R : Type 0} where
  -- An object of one map, or the exception.
  abbrev pub found : Option Object → M W R Object
  found none s = (throw object_not_existing, s)
  found (some o) s = (ok o, s)

  unfoldable pub existing : Store → String → M W R Object
  existing t name s = found (find name (s.slot t)) s

  -- Formula(name), HiddenReal(name), SuperCat(name), Pdf(name)
  unfoldable pub get_formula : String → M W R Object
  get_formula = existing formulas

  unfoldable pub hidden_real : String → M W R Object
  hidden_real = existing hidden_reals

  unfoldable pub get_super_cat : String → M W R Object
  get_super_cat = existing supercats

  unfoldable pub get_pdf : String → M W R Object
  get_pdf = existing pdfs

  -- RealExists
  unfoldable pub real_exists : EasyPdf W R → String → Bool
  real_exists s name =
      has_key name (s.slot vars)
      || (has_key name (s.slot formulas)
          || (has_key name (s.slot hidden_reals) || has_key name (s.slot external_reals)))

  -- The object of the first map that has the name, in the order of Real and RealExists.
  abbrev pub real_object : EasyPdf W R → String → Option Object
  real_object s name = or_else (find name (s.slot vars)) (
      or_else (find name (s.slot formulas))
        (or_else (find name (s.slot hidden_reals)) (find name (s.slot external_reals))))

  unfoldable pub pdf_exists : EasyPdf W R → String → Bool
  pdf_exists s name = has_key name (s.slot pdfs)

  unfoldable pub binning_exists : EasyPdf W R → String → Bool
  binning_exists s name = has_key name s.binnings

  unfoldable pub set_exists : EasyPdf W R → String → Bool
  set_exists s name = has_key name s.variable_sets

  -- Binning(name): the unbounded binning on first use, with or without a workspace.
  unfoldable pub binning : String → M W R (BinningObject R)
  binning name s = elim (find name s.binnings) [
    | some b ↦ (ok b, s)
    | none ↦
        (let b : BinningObject R = record { name = name; boundaries = [] } in
          (ok b, record s { binnings = assign name b s.binnings }))
  ]

  -- Binning(name, boundaries), with AddBinningToStore.
  unfoldable pub add_binning : String → List R → M W R (BinningObject R)
  add_binning name boundaries s =
      let b : BinningObject R = record { name = name; boundaries = boundaries } in
      if has_key name s.binnings
      then (throw object_exists, s)
      else (ok b, record s { binnings = assign name b s.binnings })

  -- AllVars: variables, categories and formulas.
  unfoldable pub all_vars : EasyPdf W R → List Object
  all_vars s = objects (s.slot vars) ++ (objects (s.slot cats) ++ objects (s.slot formulas))

module _ {W : Type 0} (roo : RooFit W) {R : Type 0} where
  abbrev pub or_new : Option Object → M W R Object → M W R Object
  or_new (some o) m s = (ok o, s)
  or_new none m s = m s

  -- Var(name) and Cat(name) create on first use.
  unfoldable pub var : String → M W R Object
  var name s = or_new (find name (s.slot vars)) (keep roo vars (make name real_var [])) s

  unfoldable pub cat : String → M W R Object
  cat name s = or_new (find name (s.slot cats)) (keep roo cats (make name category [])) s

  -- Real(name): the first map that has the name, else a new variable.
  unfoldable pub real : String → M W R Object
  real name s = or_new (real_object s name) (var name) s

  unfoldable pub super_cat : String → List String → M W R Object
  super_cat name inputs = add roo supercats (make name super_category inputs)

  unfoldable pub formula : String → String → List String → M W R Object
  formula name text dependents =
      add roo formulas (record (make name formula_var dependents) { formula = text })

  -- The scale, a number, is left out of the object.
  unfoldable pub unblind : String → String → String → M W R Object
  unblind name blind_string blind_value =
      add roo hidden_reals
        (record (make name unblind_uniform (blind_value ∷ [])) { formula = blind_string })

  -- AddRealToStore
  unfoldable pub add_real_to_store : Object → M W R Object
  add_real_to_store = add roo external_reals

  -- AddPdfToStore
  unfoldable pub add_pdf_to_store : Object → M W R Object
  add_pdf_to_store = add roo pdfs

  abbrev pub found_model : Option Object → M W R Object
  found_model none s = (throw object_not_existing, s)
  found_model (some o) s =
      if roo.is_resolution_model o.class then (ok o, s) else (throw object_not_existing, s)

  -- Model(name): the object must also be a resolution model.
  unfoldable pub get_model : String → M W R Object
  get_model name s = found_model (find name (s.slot pdfs)) s

  -- One name of Vars and VarList.
  unfoldable pub var_or_cat : String → M W R Object
  var_or_cat name s =
      if has_key name (s.slot vars)
      then var name s
      else if has_key name (s.slot cats)
      then cat name s
      else real name s

  -- The objects in the order in which they are added to the list.
  unfoldable pub var_list_of : List String → M W R (List Object)
  var_list_of [] = pure []
  var_list_of (n ∷ ns) = do o ← var_or_cat n; os ← var_list_of ns; pure (o ∷ os)

  unfoldable pub var_list : String → M W R (List Object)
  var_list names = var_list_of (roo.tokens names)

  unfoldable pub define_named : String → String → List Object → M W R (List Object)
  define_named set_name names os s = if str_eq set_name "" then (ok os, s) else (
    ok os,
    record s {
      variable_sets = assign set_name names s.variable_sets;
      ws = define_in roo s.ws set_name os;
    },
  )

  -- Vars(names, define_set_name); the empty name defines no set.
  unfoldable pub vars_set : String → String → M W R (List Object)
  vars_set names set_name = do os ← var_list_of (roo.tokens names); define_named set_name names os

  -- Set(set_name)
  unfoldable pub get_set : String → M W R (List Object)
  get_set set_name s = elim (find set_name s.variable_sets) [
    | none ↦ (throw object_not_existing, s)
    | some names ↦ vars_set names "" s
  ]
