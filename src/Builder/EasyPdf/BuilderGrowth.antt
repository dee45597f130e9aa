-- ===== src/Builder/EasyPdf/BuilderGrowth.antt =====
-- The functions of EasyPdf that build PDFs only add to the pool.
use doo_fit.Base.{String, Option, none, some, List, find, Bool-cases, inl, inr}
use doo_fit.Builder.EasyPdf.Pool.{Object, Store, formulas, pdfs, RooFit, EasyPdf}
use doo_fit.Builder.EasyPdf.Access.{
  found, found_model, existing, get_formula, get_pdf, get_model, formula, add_pdf_to_store,
}
use doo_fit.Builder.EasyPdf.Shapes.{
  lognormal, gaussian, decay, gauss_model, gauss_model_per_event, gauss_efficiency_model,
  gauss_efficiency_model_per_event, add_pdfs, add_model, eff_res_add_model,
}
use doo_fit.Builder.EasyPdf.Composites.{
  double_lognormal, double_gauss_model, triple_gauss_model, quad_gauss_model,
  double_gauss_model_scaled, triple_gauss_model_scaled, double_gauss_model_per_event,
  triple_gauss_model_per_event, double_gauss_efficiency_model, triple_gauss_efficiency_model,
  double_gauss_efficiency_model_per_event, double_gaussian_scaled, triple_gaussian_scaled,
  double_decay, double_decay_scaled, triple_decay,
}
use doo_fit.Builder.EasyPdf.Scaled.{quad_gauss_model_scaled, quin_gauss_model_scaled}
use doo_fit.Builder.EasyPdf.Growth.{
  Evolves, Evolves-refl, Grows, Grows-pure, Grows-bind, Grows-then, add-Grows,
}

module _ {W : Type 0} (roo : RooFit W) {R : Type 0} where
  found-Evolves : (x : Option Object) (s : EasyPdf W R) → Evolves roo s (found x s).1
  found-Evolves none s = Evolves-refl roo s
  found-Evolves (some o) s = Evolves-refl roo s

  found_model-Evolves :
      (x : Option Object) (s : EasyPdf W R) → Evolves roo s (found_model roo x s).1
  found_model-Evolves none s = Evolves-refl roo s
  found_model-Evolves (some o) s = elim (Bool-cases (roo.is_resolution_model o.class)) [
    | inl e ↦ rw e (Evolves-refl roo s)
    | inr e ↦ rw e (Evolves-refl roo s)
  ]

  pub existing-Grows : (t : Store) (n : String) → Grows roo (existing {W = W} {R = R} t n)
  unfolding existing
  existing-Grows t n = record { grow = λ s. found-Evolves (find n (s.slot t)) s }

  pub get_formula-Grows : (n : String) → Grows roo (get_formula {W = W} {R = R} n)
  unfolding get_formula
  get_formula-Grows n = existing-Grows formulas n

  pub get_pdf-Grows : (n : String) → Grows roo (get_pdf {W = W} {R = R} n)
  unfolding get_pdf
  get_pdf-Grows n = existing-Grows pdfs n

  pub get_model-Grows : (n : String) → Grows roo (get_model roo {R = R} n)
  unfolding get_model
  get_model-Grows n = record { grow = λ s. found_model-Evolves (find n (s.slot pdfs)) s }

  pub formula-Grows : (n f : String) (l : List String) → Grows roo (formula roo {R = R} n f l)
  unfolding formula
  formula-Grows n f l = add-Grows roo formulas _

  pub add_pdf_to_store-Grows : (o : Object) → Grows roo (add_pdf_to_store roo {R = R} o)
  unfolding add_pdf_to_store
  add_pdf_to_store-Grows o = add-Grows roo pdfs o

  ruleset growth = (
    Grows-bind, Grows-then, Grows-pure, get_formula-Grows, get_pdf-Grows, get_model-Grows,
    formula-Grows, add_pdf_to_store-Grows,
  )

  pub double_lognormal-Grows :
      (n x a b c d e : String) → Grows roo (double_lognormal roo {R = R} n x a b c d e)
  unfolding double_lognormal lognormal add_pdfs
  double_lognormal-Grows n x a b c d e = search growth depth 40

  pub double_gauss_model-Grows :
      (n x a b c d : String) → Grows roo (double_gauss_model roo {R = R} n x a b c d)
  unfolding double_gauss_model gauss_model add_model
  double_gauss_model-Grows n x a b c d = search growth depth 40

  pub triple_gauss_model-Grows :
      (n x a b c d e f : String) → Grows roo (triple_gauss_model roo {R = R} n x a b c d e f)
  unfolding triple_gauss_model gauss_model add_model
  triple_gauss_model-Grows n x a b c d e f = search growth depth 40

  pub quad_gauss_model-Grows :
      (n x a b c d e f g h : String) → Grows roo (quad_gauss_model roo {R = R} n x a b c d e f g h)
  unfolding quad_gauss_model gauss_model add_model
  quad_gauss_model-Grows n x a b c d e f g h = search growth depth 40

  pub double_gauss_model_scaled-Grows :
      (n x a b c d e : String) → Grows roo (double_gauss_model_scaled roo {R = R} n x a b c d e)
  unfolding double_gauss_model_scaled gauss_model add_model
  double_gauss_model_scaled-Grows n x a b c d e = search growth depth 40

  pub triple_gauss_model_scaled-Grows :
      (n x a b c d e f : String) → Grows roo (triple_gauss_model_scaled roo {R = R} n x a b c d e f)
  unfolding triple_gauss_model_scaled gauss_model add_model
  triple_gauss_model_scaled-Grows n x a b c d e f = search growth depth 40

  pub quad_gauss_model_scaled-Grows :
      (n x a b c d e f g h : String)
      → Grows roo (quad_gauss_model_scaled roo {R = R} n x a b c d e f g h)
  unfolding quad_gauss_model_scaled gauss_model add_model
  quad_gauss_model_scaled-Grows n x a b c d e f g h = search growth depth 40

  pub quin_gauss_model_scaled-Grows :
      (n x a b c d e f g h i j : String)
      → Grows roo (quin_gauss_model_scaled roo {R = R} n x a b c d e f g h i j)
  unfolding quin_gauss_model_scaled gauss_model add_model
  quin_gauss_model_scaled-Grows n x a b c d e f g h i j = search growth depth 40

  pub double_gauss_model_per_event-Grows :
      (n x a b c d e f : String)
      → Grows roo (double_gauss_model_per_event roo {R = R} n x a b c d e f)
  unfolding double_gauss_model_per_event gauss_model_per_event add_model
  double_gauss_model_per_event-Grows n x a b c d e f = search growth depth 40

  pub triple_gauss_model_per_event-Grows :
      (n x a b c d e f g h : String)
      → Grows roo (triple_gauss_model_per_event roo {R = R} n x a b c d e f g h)
  unfolding triple_gauss_model_per_event gauss_model_per_event add_model
  triple_gauss_model_per_event-Grows n x a b c d e f g h = search growth depth 40

  pub double_gauss_efficiency_model-Grows :
      (n x a b c d e : String) → Grows roo (double_gauss_efficiency_model roo {R = R} n x a b c d e)
  unfolding double_gauss_efficiency_model gauss_efficiency_model eff_res_add_model
  double_gauss_efficiency_model-Grows n x a b c d e = search growth depth 40

  pub triple_gauss_efficiency_model-Grows :
      (n x a b c d e f g : String)
      → Grows roo (triple_gauss_efficiency_model roo {R = R} n x a b c d e f g)
  unfolding triple_gauss_efficiency_model gauss_efficiency_model eff_res_add_model
  triple_gauss_efficiency_model-Grows n x a b c d e f g = search growth depth 40

  pub double_gauss_efficiency_model_per_event-Grows :
      (n x a b c d e f : String)
      → Grows roo (double_gauss_efficiency_model_per_event roo {R = R} n x a b c d e f)
  unfolding double_gauss_efficiency_model_per_event gauss_efficiency_model_per_event
      eff_res_add_model
  double_gauss_efficiency_model_per_event-Grows n x a b c d e f = search growth depth 40

  pub double_gaussian_scaled-Grows :
      (n x a b c d e : String) → Grows roo (double_gaussian_scaled roo {R = R} n x a b c d e)
  unfolding double_gaussian_scaled gaussian add_pdfs
  double_gaussian_scaled-Grows n x a b c d e = search growth depth 40

  pub triple_gaussian_scaled-Grows :
      (n x a b c d e f : String) → Grows roo (triple_gaussian_scaled roo {R = R} n x a b c d e f)
  unfolding triple_gaussian_scaled gaussian add_pdfs
  triple_gaussian_scaled-Grows n x a b c d e f = search growth depth 40

  pub double_decay-Grows : (n x a b c d : String) → Grows roo (double_decay roo {R = R} n x a b c d)
  unfolding double_decay decay add_pdfs
  double_decay-Grows n x a b c d = search growth depth 40

  pub double_decay_scaled-Grows :
      (n x a b c d e : String) → Grows roo (double_decay_scaled roo {R = R} n x a b c d e)
  unfolding double_decay_scaled decay add_pdfs
  double_decay_scaled-Grows n x a b c d e = search growth depth 40

  pub triple_decay-Grows :
      (n x a b c d e f : String) → Grows roo (triple_decay roo {R = R} n x a b c d e f)
  unfolding triple_decay decay add_pdfs
  triple_decay-Grows n x a b c d e f = search growth depth 40
