-- ===== src/Builder/EasyPdf/Parts.antt =====
-- What the functions that build a PDF from parts leave in a pool without a workspace.
use Prim.Native.String.{◌++◌}
use doo_fit.Base.{
  String, false, none, List, [], ◌∷◌, has_key, find-assign, has_key-assign, Bool-cases, inl, inr,
  eq_refl, if◌then◌else◌, ◌≡◌, refl,
}
use doo_fit.Builder.EasyPdf.Pool.{
  Class, Object, Store, pdfs, object_exists, ok, throw, RooFit, EasyPdf, ◌>>=◌, ◌>>◌, put, keep,
  add,
}
use doo_fit.Builder.EasyPdf.Access.{make, add_pdf_to_store}
use doo_fit.Builder.EasyPdf.Shapes.{gauss_model, add_model}
use doo_fit.Builder.EasyPdf.Composites.{double_gauss_model}
use doo_fit.Builder.EasyPdf.Names.{prefix_ne, prefix_ne_self}

abbrev pub sum_of : Class → String → (args coefs : List String) → Object
sum_of class name args coefs = record (make name class args) { coefs = coefs }

abbrev pub part : String → List String → Object
part name args = make name Class.gauss_model args

module _ {W : Type 0} (roo : RooFit W) {R : Type 0} where
  -- The pool without a workspace.
  abbrev pub standalone : EasyPdf W R → EasyPdf W R
  standalone s = record s { ws = none }

  abbrev pub IsFree : EasyPdf W R → Store → String → Type 0
  IsFree s t n = has_key n (s.slot t) ≡ false

  ruleset steps = (has_key-assign, find-assign, eq_refl)

  -- Without a workspace, and with the names of both parts free: if the name of the sum is free too,
  -- DoubleGaussModel returns the sum of `p1_name` and `p2_name` and has put exactly these three
  -- objects into the pool; if it is taken, ObjectExistsException is thrown, and the two parts stay.
  pub double_gauss_model_parts :
      (s : EasyPdf W R) (name x mean sigma1 sigma2 fraction : String)
      → IsFree s pdfs ("p1_" ++ name)
      → IsFree s pdfs ("p2_" ++ name)
      → let m =
          sum_of Class.add_model name (("p1_" ++ name) ∷ ("p2_" ++ name) ∷ []) (fraction ∷ []) in
        let parts = put pdfs ("p2_" ++ name) (part ("p2_" ++ name) (x ∷ mean ∷ sigma2 ∷ [])) (
          put pdfs
            ("p1_" ++ name)
            (part ("p1_" ++ name) (x ∷ mean ∷ sigma1 ∷ []))
            (standalone s)) in
        double_gauss_model roo name x mean sigma1 sigma2 fraction (standalone s) ≡ (
          if has_key name (s.slot pdfs)
          then (throw object_exists, parts)
          else (ok m, put pdfs name m parts))
  unfolding double_gauss_model gauss_model add_model add_pdf_to_store add keep ◌>>=◌ ◌>>◌
  double_gauss_model_parts s name x mean sigma1 sigma2 fraction f1 f2 =
      elim (Bool-cases (has_key name (s.slot pdfs))) [
        | inl e ↦ simp (
          steps,
          f1,
          f2,
          e,
          prefix_ne "p1_" "p2_" name refl,
          prefix_ne_self "p1_" name refl,
          prefix_ne_self "p2_" name refl,
        )
        | inr e ↦ simp (
          steps,
          f1,
          f2,
          e,
          prefix_ne "p1_" "p2_" name refl,
          prefix_ne_self "p1_" name refl,
          prefix_ne_self "p2_" name refl,
        )
      ]
