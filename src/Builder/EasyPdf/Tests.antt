-- ===== src/Builder/EasyPdf/Tests.antt =====
-- Runs of EasyPdf with a small workspace, a list of named objects, and its theorems at concrete pools.
use doo_fit.Base.{
  ℕ, Bool, true, false, none, some, List, [], ◌∷◌, Dict, find, assign, find-assign, has_key, eq_iff,
  if◌then◌else◌, str_eq, ◌≡◌, refl, arith, Bool-cases, inl, inr,
}
use doo_fit.Builder.EasyPdf.Pool.{
  Class, Object, vars, pdfs, same_store, object_exists, ◌>>=◌, keep, add, ok, throw, RooFit,
  EasyPdf, create, put,
}
use doo_fit.Builder.EasyPdf.Access.{
  var_list_of, var_or_cat, var, define_named, make, real, add_pdf_to_store, get_pdf, vars_set,
  get_set,
}
use doo_fit.Builder.EasyPdf.Composites.{double_gauss_model}
use doo_fit.Builder.EasyPdf.Requests.{Request, serve_all}
use doo_fit.Builder.EasyPdf.Growth.{Laws, Extends, ExtendsBinnings, IsCoherent}
use doo_fit.Builder.EasyPdf.History.{serve_all-Extends, serve_all-IsCoherent}
use doo_fit.Builder.EasyPdf.Parts.{part, double_gauss_model_parts}
use doo_fit.Builder.EasyPdf.Lookup.{vars_set-get_set, add_pdf_to_store-get_pdf}

-- An import of a name that the workspace has is ignored; the list "x,y" has two tokens.
abbrev is_gauss : Class → Bool
is_gauss Class.gauss_model = true
is_gauss _ = false

abbrev small : RooFit (Dict Object)
small = record {
  import_obj = λ o w. if has_key o.name w then w else assign o.name o w;
  obj = λ w n. find n w;
  define_set = λ k l w. w;
  is_a = λ c d. true;
  is_resolution_model = is_gauss;
  tokens = λ s. if str_eq s "x,y" then "x" ∷ "y" ∷ [] else s ∷ [];
}

small-Laws : Laws small
unfolding has_key
small-Laws = record {
  import_keeps = λ o w n p h. elim (Bool-cases (has_key o.name w)) [
    | inl e ↦ rw e h
    | inr e ↦ ground (arith, find-assign o.name n o w, eq_iff o.name n)
  ];
  define_set_keeps = λ k l w n. refl;
}

-- A pool with the variable m and a PDF sig, without a workspace.
abbrev bare : EasyPdf (Dict Object) ℕ
bare =
    put vars "m" (make "m" Class.real_var [])
      (put pdfs "sig" (make "sig" Class.exponential ("m" ∷ [])) (create none))

abbrev backed : EasyPdf (Dict Object) ℕ
backed =
    put vars "m" (make "m" Class.real_var [])
      (create (some (("m", make "m" Class.real_var []) ∷ [])))

backed-IsCoherent : IsCoherent small backed
unfolding create assign find
backed-IsCoherent w h t k o i = elim (Bool-cases (same_store vars t)) [
  | inl e ↦ ground arith
  | inr e ↦ ground arith
]

abbrev calls : List (Request ℕ)
calls =
    Request.gets_var "m"
    ∷ Request.double_gausses "sum" "m" "mu" "s1" "s2" "f"
    ∷ Request.double_gausses "sum" "m" "mu" "s1" "s2" "f"
    ∷ Request.defines_set "x,y" "obs"
    ∷ []

serve_all-Extends_example :
    Extends bare (serve_all small calls bare) × ExtendsBinnings bare (serve_all small calls bare)
serve_all-Extends_example = serve_all-Extends small calls bare

serve_all-IsCoherent_example : IsCoherent small (serve_all small calls backed)
serve_all-IsCoherent_example = serve_all-IsCoherent small calls backed small-Laws backed-IsCoherent

double_gauss_model_parts_example : double_gauss_model small "sig" "m" "mu" "s1" "s2" "f" bare ≡ (
  throw object_exists,
  put pdfs "p2_sig"
      (part "p2_sig" ("m" ∷ "mu" ∷ "s2" ∷ []))
      (put pdfs "p1_sig" (part "p1_sig" ("m" ∷ "mu" ∷ "s1" ∷ [])) bare),
)
unfolding has_key assign create
double_gauss_model_parts_example =
    double_gauss_model_parts small bare "sig" "m" "mu" "s1" "s2" "f" refl refl

abbrev set_pool : EasyPdf (Dict Object) ℕ
set_pool = (vars_set small "x,y" "obs" bare).1

vars_set-get_set_example :
    get_set small "obs" set_pool
    ≡ (ok (make "x" Class.real_var [] ∷ make "y" Class.real_var [] ∷ []), set_pool)
unfolding vars_set ◌>>=◌ var_list_of var_or_cat has_key assign create real var keep define_named
vars_set-get_set_example = vars_set-get_set small "x,y" "obs" bare _ set_pool refl refl

abbrev bkg : Object
bkg = make "bkg" Class.gaussian ("m" ∷ "mu" ∷ "s" ∷ [])

add_pdf_to_store-get_pdf_example :
    (get_pdf "bkg" (put pdfs "bkg" bkg bare) ≡ (ok bkg, put pdfs "bkg" bkg bare))
    × (add_pdf_to_store small bkg (put pdfs "bkg" bkg bare)
        ≡ (throw object_exists, put pdfs "bkg" bkg bare))
unfolding add_pdf_to_store add has_key assign create keep
add_pdf_to_store-get_pdf_example = add_pdf_to_store-get_pdf small bkg bkg bare bkg _ refl refl
