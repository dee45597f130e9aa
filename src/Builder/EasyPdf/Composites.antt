-- ===== src/Builder/EasyPdf/Composites.antt =====
-- EasyPdf.cpp: the functions that build a PDF from parts (DoubleLognormal to TripleDecay). Where C++
-- leaves the order of the parts open, they are created from left to right.
use Prim.Native.String.{◌++◌}
use doo_fit.Base.{String, [], ◌∷◌, if◌then◌else◌, str_eq}
use doo_fit.Builder.EasyPdf.Pool.{Object, RooFit, M, ◌>>=◌, ◌>>◌}
use doo_fit.Builder.EasyPdf.Access.{formula, get_formula, get_pdf, get_model}
use doo_fit.Builder.EasyPdf.Shapes.{
  lognormal, gaussian, decay, gauss_model, gauss_model_per_event, gauss_efficiency_model,
  gauss_efficiency_model_per_event, add_pdfs, add_model, eff_res_add_model,
}

-- A name argument with the default "".
abbrev or_default : String → String → String
or_default given default = if str_eq given "" then default else given

module _ {W : Type 0} (roo : RooFit W) {R : Type 0} where
  unfoldable pub double_lognormal : (name x m1 k1 m2 k2 fraction : String) → M W R Object
  double_lognormal name x m1 k1 m2 k2 fraction = do
    p1 ← lognormal roo ("p1_" ++ name) x m1 k1
    p2 ← lognormal roo ("p2_" ++ name) x m2 k2
    add_pdfs roo name (p1.name ∷ p2.name ∷ []) (fraction ∷ [])

  unfoldable pub double_gauss_model : (name x mean sigma1 sigma2 fraction : String) → M W R Object
  double_gauss_model name x mean sigma1 sigma2 fraction = do
    p1 ← gauss_model roo ("p1_" ++ name) x mean sigma1
    p2 ← gauss_model roo ("p2_" ++ name) x mean sigma2
    add_model roo name (p1.name ∷ p2.name ∷ []) (fraction ∷ [])

  unfoldable pub triple_gauss_model :
      (name x mean sigma1 sigma2 sigma3 fraction1 fraction2 : String) → M W R Object
  triple_gauss_model name x mean sigma1 sigma2 sigma3 fraction1 fraction2 = do
    p1 ← gauss_model roo ("p1_" ++ name) x mean sigma1
    p2 ← gauss_model roo ("p2_" ++ name) x mean sigma2
    p3 ← gauss_model roo ("p3_" ++ name) x mean sigma3
    add_model roo name (p1.name ∷ p2.name ∷ p3.name ∷ []) (fraction1 ∷ fraction2 ∷ [])

  unfoldable pub quad_gauss_model :
      (name x mean sigma1 sigma2 sigma3 sigma4 fraction1 fraction2 fraction3 : String)
      → M W R Object
  quad_gauss_model name x mean sigma1 sigma2 sigma3 sigma4 fraction1 fraction2 fraction3 = do
    p1 ← gauss_model roo ("p1_" ++ name) x mean sigma1
    p2 ← gauss_model roo ("p2_" ++ name) x mean sigma2
    p3 ← gauss_model roo ("p3_" ++ name) x mean sigma3
    p4 ← gauss_model roo ("p4_" ++ name) x mean sigma4
    add_model roo name (p1.name ∷ p2.name ∷ p3.name ∷ p4.name ∷ [])
        (fraction1 ∷ fraction2 ∷ fraction3 ∷ [])

  unfoldable pub double_gauss_model_scaled :
      (name x mean sigma scale fraction sigma2_name : String) → M W R Object
  double_gauss_model_scaled name x mean sigma scale fraction sigma2_name = do
    p1 ← gauss_model roo ("p1_" ++ name) x mean sigma
    sigma2 ← formula roo (or_default sigma2_name (name ++ "_sigma2")) "@0*@1" (sigma ∷ scale ∷ [])
    p2 ← gauss_model roo ("p2_" ++ name) x mean sigma2.name
    add_model roo name (p1.name ∷ p2.name ∷ []) (fraction ∷ [])

  unfoldable pub triple_gauss_model_scaled :
      (name x mean sigma scale2 scale3 fraction1 frac_rec2 : String) → M W R Object
  triple_gauss_model_scaled name x mean sigma scale2 scale3 fraction1 frac_rec2 = do
    sigma2 ← formula roo (name ++ "_sigma2") "@0*@1" (sigma ∷ scale2 ∷ [])
    gauss_model roo ("p2_" ++ name) x mean sigma2.name
    sigma3 ← formula roo (name ++ "_sigma3") "@0*@1@2" (sigma ∷ scale2 ∷ scale3 ∷ [])
    gauss_model roo ("p3_" ++ name) x mean sigma3.name
    formula roo (name ++ "_fraction2") "(1-@0)*@1" (fraction1 ∷ frac_rec2 ∷ [])
    p1 ← gauss_model roo ("p1_" ++ name) x mean sigma
    p2 ← get_model roo ("p2_" ++ name)
    p3 ← get_model roo ("p3_" ++ name)
    fraction2 ← get_formula (name ++ "_fraction2")
    add_model roo name (p1.name ∷ p2.name ∷ p3.name ∷ []) (fraction1 ∷ fraction2.name ∷ [])

  unfoldable pub double_gauss_model_per_event :
      (name x mean scale_error1 scale_error2 scale_mean error fraction : String) → M W R Object
  double_gauss_model_per_event name x mean scale_error1 scale_error2 scale_mean error fraction = do
    p1 ← gauss_model_per_event roo ("p1_" ++ name) x mean scale_error1 scale_mean error
    p2 ← gauss_model_per_event roo ("p2_" ++ name) x mean scale_error2 scale_mean error
    add_model roo name (p1.name ∷ p2.name ∷ []) (fraction ∷ [])

  unfoldable pub triple_gauss_model_per_event :
      (name x mean scale_error1 scale_error2 scale_error3 scale_mean error fraction1
        frac_rec2 : String)
      → M W R Object
  triple_gauss_model_per_event name x mean scale_error1 scale_error2 scale_error3 scale_mean error
        fraction1 frac_rec2 =
      do
        formula roo (name ++ "_fraction2") "(1-@0)*@1" (fraction1 ∷ frac_rec2 ∷ [])
        p1 ← gauss_model_per_event roo ("p1_" ++ name) x mean scale_error1 scale_mean error
        p2 ← gauss_model_per_event roo ("p2_" ++ name) x mean scale_error2 scale_mean error
        p3 ← gauss_model_per_event roo ("p3_" ++ name) x mean scale_error3 scale_mean error
        fraction2 ← get_formula (name ++ "_fraction2")
        add_model roo name (p1.name ∷ p2.name ∷ p3.name ∷ []) (fraction1 ∷ fraction2.name ∷ [])

  unfoldable pub double_gauss_efficiency_model :
      (name x eff mean sigma1 sigma2 fraction : String) → M W R Object
  double_gauss_efficiency_model name x eff mean sigma1 sigma2 fraction = do
    p1 ← gauss_efficiency_model roo ("p1_" ++ name) x eff mean sigma1
    p2 ← gauss_efficiency_model roo ("p2_" ++ name) x eff mean sigma2
    eff_res_add_model roo name (p1.name ∷ p2.name ∷ []) (fraction ∷ [])

  unfoldable pub triple_gauss_efficiency_model :
      (name x eff mean sigma1 sigma2 sigma3 fraction1 fraction2 : String) → M W R Object
  triple_gauss_efficiency_model name x eff mean sigma1 sigma2 sigma3 fraction1 fraction2 = do
    p1 ← gauss_efficiency_model roo ("p1_" ++ name) x eff mean sigma1
    p2 ← gauss_efficiency_model roo ("p2_" ++ name) x eff mean sigma2
    p3 ← gauss_efficiency_model roo ("p3_" ++ name) x eff mean sigma3
    eff_res_add_model roo name (p1.name ∷ p2.name ∷ p3.name ∷ []) (fraction1 ∷ fraction2 ∷ [])

  -- `RooConst(1.0)` is the object with the name "1".
  unfoldable pub double_gauss_efficiency_model_per_event :
      (name x eff mean error scale_error1 scale_error2 fraction : String) → M W R Object
  double_gauss_efficiency_model_per_event name x eff mean error scale_error1 scale_error2 fraction =
      do
        p1 ← gauss_efficiency_model_per_event roo ("p1_" ++ name) x eff mean error "1" scale_error1
        p2 ← gauss_efficiency_model_per_event roo ("p2_" ++ name) x eff mean error "1" scale_error2
        eff_res_add_model roo name (p1.name ∷ p2.name ∷ []) (fraction ∷ [])

  unfoldable pub double_gaussian_scaled :
      (name x mean sigma scale fraction sigma2_name : String) → M W R Object
  double_gaussian_scaled name x mean sigma scale fraction sigma2_name = do
    p1 ← gaussian roo ("p1_" ++ name) x mean sigma
    sigma2 ← formula roo (or_default sigma2_name (name ++ "_sigma2")) "@0*@1" (sigma ∷ scale ∷ [])
    p2 ← gaussian roo ("p2_" ++ name) x mean sigma2.name
    add_pdfs roo name (p1.name ∷ p2.name ∷ []) (fraction ∷ [])

  unfoldable pub triple_gaussian_scaled :
      (name x mean sigma scale2 scale3 fraction1 frac_rec2 : String) → M W R Object
  triple_gaussian_scaled name x mean sigma scale2 scale3 fraction1 frac_rec2 = do
    sigma2 ← formula roo (name ++ "_sigma2") "@0*@1" (sigma ∷ scale2 ∷ [])
    gaussian roo ("p2_" ++ name) x mean sigma2.name
    sigma3 ← formula roo (name ++ "_sigma3") "@0*@1@2" (sigma ∷ scale2 ∷ scale3 ∷ [])
    gaussian roo ("p3_" ++ name) x mean sigma3.name
    formula roo (name ++ "_fraction2") "(1-@0)*@1" (fraction1 ∷ frac_rec2 ∷ [])
    p1 ← gaussian roo ("p1_" ++ name) x mean sigma
    p2 ← get_pdf ("p2_" ++ name)
    p3 ← get_pdf ("p3_" ++ name)
    fraction2 ← get_formula (name ++ "_fraction2")
    add_pdfs roo name (p1.name ∷ p2.name ∷ p3.name ∷ []) (fraction1 ∷ fraction2.name ∷ [])

  unfoldable pub atan_acceptance : (name x slope_a slope_b : String) → M W R Object
  atan_acceptance name x slope_a slope_b =
      formula roo name "(atan(@0*exp(@1*@0+@2)))/1.570796327" (x ∷ slope_a ∷ slope_b ∷ [])

  unfoldable pub atan_acceptance_including_beta :
      (name x slope_a slope_b beta : String) → M W R Object
  atan_acceptance_including_beta name x slope_a slope_b beta =
      formula roo name "(atan(@0*exp(@1*@0+@2)))*(1-@3*@0)/1.570796327"
        (x ∷ slope_a ∷ slope_b ∷ beta ∷ [])

  unfoldable pub double_decay : (name t tau1 tau2 fraction model : String) → M W R Object
  double_decay name t tau1 tau2 fraction model = do
    p1 ← decay roo ("p1_" ++ name) t tau1 model
    p2 ← decay roo ("p2_" ++ name) t tau2 model
    add_pdfs roo name (p1.name ∷ p2.name ∷ []) (fraction ∷ [])

  unfoldable pub double_decay_scaled :
      (name t tau1 scale fraction model tau2_name : String) → M W R Object
  double_decay_scaled name t tau1 scale fraction model tau2_name = do
    p1 ← decay roo ("p1_" ++ name) t tau1 model
    tau2 ← formula roo (or_default tau2_name (name ++ "_tau2")) "@0*@1" (tau1 ∷ scale ∷ [])
    p2 ← decay roo ("p2_" ++ name) t tau2.name model
    add_pdfs roo name (p1.name ∷ p2.name ∷ []) (fraction ∷ [])

  unfoldable pub triple_decay :
      (name t tau1 tau2 tau3 fraction1 frac_rec2 model : String) → M W R Object
  triple_decay name t tau1 tau2 tau3 fraction1 frac_rec2 model = do
    formula roo (name ++ "_fraction2") "(1-@0)*@1" (fraction1 ∷ frac_rec2 ∷ [])
    p1 ← decay roo ("p1_" ++ name) t tau1 model
    p2 ← decay roo ("p2_" ++ name) t tau2 model
    p3 ← decay roo ("p3_" ++ name) t tau3 model
    fraction2 ← get_formula (name ++ "_fraction2")
    add_pdfs roo name (p1.name ∷ p2.name ∷ p3.name ∷ []) (fraction1 ∷ fraction2.name ∷ [])
