-- ===== src/Builder/EasyPdf/Scaled.antt =====
-- EasyPdf.cpp: QuadGaussModelScaled and QuinGaussModelScaled, whose widths and fractions are
-- formulas of their own.
use Prim.Native.String.{◌++◌}
use doo_fit.Base.{String, [], ◌∷◌}
use doo_fit.Builder.EasyPdf.Pool.{Object, RooFit, M, ◌>>=◌, ◌>>◌}
use doo_fit.Builder.EasyPdf.Access.{formula, get_formula, get_model}
use doo_fit.Builder.EasyPdf.Shapes.{gauss_model, add_model}

module _ {W : Type 0} (roo : RooFit W) {R : Type 0} where
  unfoldable pub quad_gauss_model_scaled :
      (name x mean sigma scale2 scale3 scale4 fraction1 frac_rec2 frac_rec3 : String) → M W R Object
  quad_gauss_model_scaled name x mean sigma scale2 scale3 scale4 fraction1 frac_rec2 frac_rec3 = do
    sigma2 ← formula roo (name ++ "_sigma2") "@0*@1" (sigma ∷ scale2 ∷ [])
    gauss_model roo ("p2_" ++ name) x mean sigma2.name
    sigma3 ← formula roo (name ++ "_sigma3") "@0*@1@2" (sigma ∷ scale2 ∷ scale3 ∷ [])
    gauss_model roo ("p3_" ++ name) x mean sigma3.name
    sigma4 ← formula roo (name ++ "_sigma4") "@0*@1@2*@3" (sigma ∷ scale2 ∷ scale3 ∷ scale4 ∷ [])
    gauss_model roo ("p4_" ++ name) x mean sigma4.name
    formula roo (name ++ "_fraction2") "(1-@0)*@1" (fraction1 ∷ frac_rec2 ∷ [])
    formula roo (name ++ "_fraction3") "(1-@0)*(1-@1)*@2" (fraction1 ∷ frac_rec2 ∷ frac_rec3 ∷ [])
    p1 ← gauss_model roo ("p1_" ++ name) x mean sigma
    p2 ← get_model roo ("p2_" ++ name)
    p3 ← get_model roo ("p3_" ++ name)
    p4 ← get_model roo ("p4_" ++ name)
    fraction2 ← get_formula (name ++ "_fraction2")
    fraction3 ← get_formula (name ++ "_fraction3")
    add_model roo name (p1.name ∷ p2.name ∷ p3.name ∷ p4.name ∷ [])
        (fraction1 ∷ fraction2.name ∷ fraction3.name ∷ [])

  unfoldable pub quin_gauss_model_scaled :
      (name x mean sigma scale2 scale3 scale4 scale5 : String)
      → (fraction1 frac_rec2 frac_rec3 frac_rec4 : String) → M W R Object
  quin_gauss_model_scaled name x mean sigma scale2 scale3 scale4 scale5 fraction1 frac_rec2
        frac_rec3 frac_rec4 =
      do
        sigma2 ← formula roo (name ++ "_sigma2") "@0*@1" (sigma ∷ scale2 ∷ [])
        gauss_model roo ("p2_" ++ name) x mean sigma2.name
        sigma3 ← formula roo (name ++ "_sigma3") "@0*@1@2" (sigma ∷ scale2 ∷ scale3 ∷ [])
        gauss_model roo ("p3_" ++ name) x mean sigma3.name
        sigma4 ←
            formula roo (name ++ "_sigma4") "@0*@1@2*@3" (sigma ∷ scale2 ∷ scale3 ∷ scale4 ∷ [])
        gauss_model roo ("p4_" ++ name) x mean sigma4.name
        sigma5 ←
            formula roo (name ++ "_sigma5") "@0*@1@2*@3*@4"
              (sigma ∷ scale2 ∷ scale3 ∷ scale4 ∷ scale5 ∷ [])
        gauss_model roo ("p5_" ++ name) x mean sigma5.name
        formula roo (name ++ "_fraction2") "(1-@0)*@1" (fraction1 ∷ frac_rec2 ∷ [])
        formula roo (name ++ "_fraction3") "(1-@0)*(1-@1)*@2"
            (fraction1 ∷ frac_rec2 ∷ frac_rec3 ∷ [])
        formula roo (name ++ "_fraction4") "(1-@0)*(1-@1)*(1-@2)*@3"
            (fraction1 ∷ frac_rec2 ∷ frac_rec3 ∷ frac_rec4 ∷ [])
        p1 ← gauss_model roo ("p1_" ++ name) x mean sigma
        p2 ← get_model roo ("p2_" ++ name)
        p3 ← get_model roo ("p3_" ++ name)
        p4 ← get_model roo ("p4_" ++ name)
        p5 ← get_model roo ("p5_" ++ name)
        fraction2 ← get_formula (name ++ "_fraction2")
        fraction3 ← get_formula (name ++ "_fraction3")
        fraction4 ← get_formula (name ++ "_fraction4")
        add_model roo name (p1.name ∷ p2.name ∷ p3.name ∷ p4.name ∷ p5.name ∷ [])
            (fraction1 ∷ fraction2.name ∷ fraction3.name ∷ fraction4.name ∷ [])
