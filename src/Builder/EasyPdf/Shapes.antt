-- ===== src/Builder/EasyPdf/Shapes.antt =====
-- EasyPdf.cpp: the functions that add one PDF (Gaussian to HistPdf). Each creates the object and
-- hands it to AddPdfToStore. Numbers and options of the constructors are left out.
use doo_fit.Base.{String, Bool, true, false, Option, none, some, List, [], ◌∷◌, ◌++◌, ◌<>◌}
use doo_fit.Builder.EasyPdf.Pool.{Object, object_not_existing, null_pointer, throw, RooFit, M}
use doo_fit.Builder.EasyPdf.Pool.{Class}
use doo_fit.Builder.EasyPdf.Access.{make, add_pdf_to_store}

-- The name of the clone that HistPdf keeps.
abbrev pub hist_clone : String → String
hist_clone hist_name = ◌<>◌ hist_name "_clone"

module _ {W : Type 0} (roo : RooFit W) {R : Type 0} where
  unfoldable pub gaussian : (name x mean sigma : String) → M W R Object
  gaussian name x mean sigma =
      add_pdf_to_store roo (make name Class.gaussian (x ∷ mean ∷ sigma ∷ []))

  unfoldable pub cb_shape : (name x mean sigma alpha n : String) → M W R Object
  cb_shape name x mean sigma alpha n =
      add_pdf_to_store roo (make name Class.cb_shape (x ∷ mean ∷ sigma ∷ alpha ∷ n ∷ []))

  unfoldable pub ipatia : (name x l zeta fb sigma mu a n : String) → M W R Object
  ipatia name x l zeta fb sigma mu a n =
      add_pdf_to_store roo (make name Class.ipatia (x ∷ l ∷ zeta ∷ fb ∷ sigma ∷ mu ∷ a ∷ n ∷ []))

  unfoldable pub ipatia2 : (name x l zeta fb sigma mu a1 n1 a2 n2 : String) → M W R Object
  ipatia2 name x l zeta fb sigma mu a1 n1 a2 n2 =
      add_pdf_to_store roo
        (make name Class.ipatia2 (x ∷ l ∷ zeta ∷ fb ∷ sigma ∷ mu ∷ a1 ∷ n1 ∷ a2 ∷ n2 ∷ []))

  unfoldable pub exponential : (name x e : String) → M W R Object
  exponential name x e = add_pdf_to_store roo (make name Class.exponential (x ∷ e ∷ []))

  unfoldable pub decay : (name t tau model : String) → M W R Object
  decay name t tau model = add_pdf_to_store roo (make name Class.decay (t ∷ tau ∷ model ∷ []))

  unfoldable pub lognormal : (name x m k : String) → M W R Object
  lognormal name x m k = add_pdf_to_store roo (make name Class.lognormal (x ∷ m ∷ k ∷ []))

  unfoldable pub eff_prod : (name pdf efficiency : String) → M W R Object
  eff_prod name pdf efficiency =
      add_pdf_to_store roo (make name Class.eff_prod (pdf ∷ efficiency ∷ []))

  unfoldable pub extend : (name pdf yield : String) → M W R Object
  extend name pdf yield = add_pdf_to_store roo (make name Class.extend_pdf (pdf ∷ yield ∷ []))

  unfoldable pub truth_model : (name x : String) → M W R Object
  truth_model name x = add_pdf_to_store roo (make name Class.truth_model (x ∷ []))

  unfoldable pub gauss_model : (name x mean sigma : String) → M W R Object
  gauss_model name x mean sigma =
      add_pdf_to_store roo (make name Class.gauss_model (x ∷ mean ∷ sigma ∷ []))

  unfoldable pub gauss_model_per_event :
      (name x mean scale_error scale_mean error : String) → M W R Object
  gauss_model_per_event name x mean scale_error scale_mean error =
      add_pdf_to_store roo
        (make name Class.gauss_model (x ∷ mean ∷ scale_error ∷ scale_mean ∷ error ∷ []))

  unfoldable pub gauss_efficiency_model : (name x eff mean sigma : String) → M W R Object
  gauss_efficiency_model name x eff mean sigma =
      add_pdf_to_store roo (make name Class.gauss_efficiency_model (x ∷ eff ∷ mean ∷ sigma ∷ []))

  unfoldable pub gauss_efficiency_model_per_event :
      (name x eff mean error scale_mean scale_error : String) → M W R Object
  gauss_efficiency_model_per_event name x eff mean error scale_mean scale_error =
      add_pdf_to_store roo (
        make name Class.gauss_efficiency_model
          (x ∷ eff ∷ mean ∷ error ∷ scale_mean ∷ scale_error ∷ []))

  unfoldable pub b_decay :
      (name t tau dgamma coef_cosh coef_sinh coef_cos coef_sin dm model : String) → M W R Object
  b_decay name t tau dgamma coef_cosh coef_sinh coef_cos coef_sin dm model = add_pdf_to_store roo (
      make name Class.b_decay
        (t ∷ tau ∷ dgamma ∷ coef_cosh ∷ coef_sinh ∷ coef_cos ∷ coef_sin ∷ dm ∷ model ∷ []))

  unfoldable pub b_mix_decay :
      (name t mix_state tag_flav tau dm mistag del_mistag model : String) → M W R Object
  b_mix_decay name t mix_state tag_flav tau dm mistag del_mistag model = add_pdf_to_store roo (
      make name Class.b_mix_decay
        (t ∷ mix_state ∷ tag_flav ∷ tau ∷ dm ∷ mistag ∷ del_mistag ∷ model ∷ []))

  unfoldable pub multi_var_gaussian : String → (xvec mu : List String) → M W R Object
  multi_var_gaussian name xvec mu =
      add_pdf_to_store roo (make name Class.multi_var_gaussian (xvec ++ mu))

  unfoldable pub polynomial : (name x : String) → List String → M W R Object
  polynomial name x coefficient_list =
      add_pdf_to_store roo
        (record (make name Class.polynomial (x ∷ [])) { coefs = coefficient_list })

  unfoldable pub simultaneous : String → List String → String → M W R Object
  simultaneous name pdfs category =
      add_pdf_to_store roo (make name Class.simultaneous (category ∷ pdfs))

  unfoldable pub generic_pdf : (name formula : String) → List String → M W R Object
  generic_pdf name formula dependents =
      add_pdf_to_store roo (record (make name Class.generic_pdf dependents) { formula = formula })

  unfoldable pub product : String → List String → M W R Object
  product name pdfs = add_pdf_to_store roo (make name Class.prod_pdf pdfs)

  -- Add(name, pdfs) has no coefficients.
  unfoldable pub add_pdfs : String → (pdfs coefs : List String) → M W R Object
  add_pdfs name pdfs coefs =
      add_pdf_to_store roo (record (make name Class.add_pdf pdfs) { coefs = coefs })

  unfoldable pub add_model : String → (pdfs coefs : List String) → M W R Object
  add_model name pdfs coefs =
      add_pdf_to_store roo (record (make name Class.add_model pdfs) { coefs = coefs })

  unfoldable pub eff_res_add_model : String → (pdfs coefs : List String) → M W R Object
  eff_res_add_model name pdfs coefs =
      add_pdf_to_store roo (record (make name Class.eff_res_add_model pdfs) { coefs = coefs })

  -- KeysPdf clones the PDF that it finds in a file: `stored` is that PDF, cast to RooKeysPdf.
  unfoldable pub keys_pdf : String → Option Object → M W R Object
  keys_pdf name none s = (throw null_pointer, s)
  keys_pdf name (some stored) s = add_pdf_to_store roo (record stored { name = name }) s

  -- HistPdf keeps a clone of the histogram; `loaded` is whether the file has it.
  unfoldable pub hist_pdf : String → List String → Bool → String → M W R Object
  hist_pdf name vars false hist_name s = (throw object_not_existing, s)
  hist_pdf name vars true hist_name s =
      add_pdf_to_store roo (make name Class.hist_pdf (hist_clone hist_name ∷ vars))
        (record s { hists = s.hists ++ (hist_clone hist_name ∷ []) })
