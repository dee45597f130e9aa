-- ===== src/Builder/EasyPdf/Requests.antt =====
-- The public functions of EasyPdf that change the pool, as data, and a history of them.
use doo_fit.Base.{String, Bool, Option, List, [], ◌∷◌}
use doo_fit.Builder.EasyPdf.Pool.{Object, RooFit, EasyPdf, M, pure, ◌>>◌}
use doo_fit.Builder.EasyPdf.Access.{
  var, cat, real, super_cat, formula, unblind, add_real_to_store, add_pdf_to_store, var_list,
  vars_set, get_set, binning, add_binning,
}
use doo_fit.Builder.EasyPdf.Shapes.{keys_pdf, hist_pdf}
use doo_fit.Builder.EasyPdf.Composites.{
  double_lognormal, double_gauss_model, triple_gauss_model, quad_gauss_model,
  double_gauss_model_scaled, triple_gauss_model_scaled, double_gauss_model_per_event,
  triple_gauss_model_per_event, double_gauss_efficiency_model, triple_gauss_efficiency_model,
  double_gauss_efficiency_model_per_event, double_gaussian_scaled, triple_gaussian_scaled,
  double_decay, double_decay_scaled, triple_decay,
}
use doo_fit.Builder.EasyPdf.Scaled.{quad_gauss_model_scaled, quin_gauss_model_scaled}

-- `adds_pdf` stands for every function that creates one PDF.
pub data Request (R : Type 0) : Type 0 where
  gets_var gets_cat gets_real gets_binning gets_set : String → Request R
  adds_super_cat : String → List String → Request R
  adds_formula : (name text : String) → List String → Request R
  adds_unblind : (name blind_string blind_value : String) → Request R
  adds_real adds_pdf : Object → Request R
  adds_binning : String → List R → Request R
  lists_vars : String → Request R
  defines_set : (names set_name : String) → Request R
  loads_keys : String → Option Object → Request R
  loads_hist : String → List String → Bool → String → Request R
  double_lognormals : (name x m1 k1 m2 k2 fraction : String) → Request R
  double_gausses : (name x mean sigma1 sigma2 fraction : String) → Request R
  triple_gausses : (name x mean sigma1 sigma2 sigma3 fraction1 fraction2 : String) → Request R
  quad_gausses :
      (name x mean sigma1 sigma2 sigma3 sigma4 fraction1 fraction2 fraction3 : String) → Request R
  double_scaled : (name x mean sigma scale fraction sigma2_name : String) → Request R
  triple_scaled : (name x mean sigma scale2 scale3 fraction1 frac_rec2 : String) → Request R
  quad_scaled :
      (name x mean sigma scale2 scale3 scale4 fraction1 frac_rec2 frac_rec3 : String) → Request R
  quin_scaled :
      (name x mean sigma scale2 scale3 scale4 scale5 : String)
      → (fraction1 frac_rec2 frac_rec3 frac_rec4 : String) → Request R
  double_per_event :
      (name x mean scale_error1 scale_error2 scale_mean error fraction : String) → Request R
  triple_per_event :
      (name x mean scale_error1 scale_error2 scale_error3 scale_mean error fraction1
        frac_rec2 : String)
      → Request R
  double_efficiency : (name x eff mean sigma1 sigma2 fraction : String) → Request R
  triple_efficiency :
      (name x eff mean sigma1 sigma2 sigma3 fraction1 fraction2 : String) → Request R
  double_efficiency_per_event :
      (name x eff mean error scale_error1 scale_error2 fraction : String) → Request R
  double_gaussians : (name x mean sigma scale fraction sigma2_name : String) → Request R
  triple_gaussians : (name x mean sigma scale2 scale3 fraction1 frac_rec2 : String) → Request R
  double_decays : (name t tau1 tau2 fraction model : String) → Request R
  double_decays_scaled : (name t tau1 scale fraction model tau2_name : String) → Request R
  triple_decays : (name t tau1 tau2 tau3 fraction1 frac_rec2 model : String) → Request R

module _ {W : Type 0} (roo : RooFit W) {R : Type 0} where
  -- The result is forgotten; an exception stays one.
  abbrev pub drop_result : {A : Type 0} → M W R A → M W R (Unit {0})
  drop_result m = m >> pure tt

  unfoldable pub serve : Request R → M W R (Unit {0})
  serve (gets_var n) = drop_result (var roo n)
  serve (gets_cat n) = drop_result (cat roo n)
  serve (gets_real n) = drop_result (real roo n)
  serve (gets_binning n) = drop_result (binning n)
  serve (gets_set n) = drop_result (get_set roo n)
  serve (adds_super_cat n l) = drop_result (super_cat roo n l)
  serve (adds_formula n f l) = drop_result (formula roo n f l)
  serve (adds_unblind n b v) = drop_result (unblind roo n b v)
  serve (adds_real o) = drop_result (add_real_to_store roo o)
  serve (adds_pdf o) = drop_result (add_pdf_to_store roo o)
  serve (adds_binning n l) = drop_result (add_binning n l)
  serve (lists_vars n) = drop_result (var_list roo n)
  serve (defines_set n k) = drop_result (vars_set roo n k)
  serve (loads_keys n o) = drop_result (keys_pdf roo n o)
  serve (loads_hist n l b h) = drop_result (hist_pdf roo n l b h)
  serve (double_lognormals n x a b c d e) = drop_result (double_lognormal roo n x a b c d e)
  serve (double_gausses n x a b c d) = drop_result (double_gauss_model roo n x a b c d)
  serve (triple_gausses n x a b c d e f) = drop_result (triple_gauss_model roo n x a b c d e f)
  serve (quad_gausses n x a b c d e f g h) = drop_result (quad_gauss_model roo n x a b c d e f g h)
  serve (double_scaled n x a b c d e) = drop_result (double_gauss_model_scaled roo n x a b c d e)
  serve (triple_scaled n x a b c d e f) =
      drop_result (triple_gauss_model_scaled roo n x a b c d e f)
  serve (quad_scaled n x a b c d e f g h) =
      drop_result (quad_gauss_model_scaled roo n x a b c d e f g h)
  serve (quin_scaled n x a b c d e f g h i j) =
      drop_result (quin_gauss_model_scaled roo n x a b c d e f g h i j)
  serve (double_per_event n x a b c d e f) =
      drop_result (double_gauss_model_per_event roo n x a b c d e f)
  serve (triple_per_event n x a b c d e f g h) =
      drop_result (triple_gauss_model_per_event roo n x a b c d e f g h)
  serve (double_efficiency n x a b c d e) =
      drop_result (double_gauss_efficiency_model roo n x a b c d e)
  serve (triple_efficiency n x a b c d e f g) =
      drop_result (triple_gauss_efficiency_model roo n x a b c d e f g)
  serve (double_efficiency_per_event n x a b c d e f) =
      drop_result (double_gauss_efficiency_model_per_event roo n x a b c d e f)
  serve (double_gaussians n x a b c d e) = drop_result (double_gaussian_scaled roo n x a b c d e)
  serve (triple_gaussians n x a b c d e f) =
      drop_result (triple_gaussian_scaled roo n x a b c d e f)
  serve (double_decays n t a b c d) = drop_result (double_decay roo n t a b c d)
  serve (double_decays_scaled n t a b c d e) = drop_result (double_decay_scaled roo n t a b c d e)
  serve (triple_decays n t a b c d e f) = drop_result (triple_decay roo n t a b c d e f)

  -- A caller that goes on after an exception.
  unfoldable pub serve_all : List (Request R) → EasyPdf W R → EasyPdf W R
  unfolding serve
  serve_all [] s = s
  serve_all (q ∷ qs) s = serve_all qs (serve q s).1
