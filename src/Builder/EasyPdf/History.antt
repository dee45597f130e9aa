-- ===== src/Builder/EasyPdf/History.antt =====
-- No function of EasyPdf, and no history of calls, loses or replaces an object of the pool.
use doo_fit.Base.{
  String, Bool, true, false, Option, none, some, List, [], ◌∷◌, ◌++◌, find, assign, has_key, str_eq,
  Bool-cases, Option-cases, inl, inr, ◌⊎◌, find-assign, eq_iff, sym, ◌≡◌, refl, arith,
}
use doo_fit.Builder.EasyPdf.Pool.{
  Class, Object, BinningObject, vars, cats, supercats, hidden_reals, external_reals, RooFit,
  EasyPdf, M, pure, keep, real_var, category,
}
use doo_fit.Builder.EasyPdf.Access.{
  real_object, make, binning, add_binning, or_new, var, cat, real, super_cat, unblind,
  add_real_to_store, var_or_cat, var_list_of, var_list, define_in, names_of, define_named, vars_set,
  get_set,
}
use doo_fit.Builder.EasyPdf.Shapes.{keys_pdf, hist_clone, hist_pdf}
use doo_fit.Builder.EasyPdf.Growth.{
  Laws, Extends, ExtendsBinnings, IsCoherent, Evolves, Evolves-refl, Evolves-trans, frame-Evolves,
  Grows, Grows-pure, Grows-bind, Grows-then, keep-Evolves, add-Grows,
}
use doo_fit.Builder.EasyPdf.BuilderGrowth.{add_pdf_to_store-Grows}
use doo_fit.Builder.EasyPdf.BuilderGrowth
use doo_fit.Builder.EasyPdf.Requests.{Request, drop_result, serve, serve_all}

module _ {W : Type 0} (roo : RooFit W) {R : Type 0} where
  var-Evolves :
      (n : String) (x : Option Object) (s : EasyPdf W R)
      → find n (s.slot vars) ≡ x
      → Evolves roo s (or_new roo x (keep roo vars (make n real_var [])) s).1
  var-Evolves n none s e = keep-Evolves roo vars (make n real_var []) s e
  var-Evolves n (some o) s e = Evolves-refl roo s

  var-Grows : (n : String) → Grows roo (var roo {R = R} n)
  unfolding var
  var-Grows n = record { grow = λ s. var-Evolves n (find n (s.slot vars)) s refl }

  cat-Evolves :
      (n : String) (x : Option Object) (s : EasyPdf W R)
      → find n (s.slot cats) ≡ x
      → Evolves roo s (or_new roo x (keep roo cats (make n category [])) s).1
  cat-Evolves n none s e = keep-Evolves roo cats (make n category []) s e
  cat-Evolves n (some o) s e = Evolves-refl roo s

  cat-Grows : (n : String) → Grows roo (cat roo {R = R} n)
  unfolding cat
  cat-Grows n = record { grow = λ s. cat-Evolves n (find n (s.slot cats)) s refl }

  or_new-Evolves :
      (x : Option Object) (m : M W R Object) (s : EasyPdf W R)
      → Evolves roo s (m s).1
      → Evolves roo s (or_new roo x m s).1
  or_new-Evolves none m s h = h
  or_new-Evolves (some o) m s h = Evolves-refl roo s

  real-Grows : (n : String) → Grows roo (real roo {R = R} n)
  unfolding real
  real-Grows n = record {
    grow = λ s. or_new-Evolves (real_object s n) (var roo n) s ((var-Grows n).grow s);
  }

  var_or_cat-Evolves :
      (a b : Bool) (n : String) (s : EasyPdf W R)
      → has_key n (s.slot vars) ≡ a
      → has_key n (s.slot cats) ≡ b
      → Evolves roo s (var_or_cat roo n s).1
  unfolding var_or_cat
  var_or_cat-Evolves true b n s e f = rw (e, var_or_cat) ((var-Grows n).grow s)
  var_or_cat-Evolves false true n s e f = rw (e, f, var_or_cat) ((cat-Grows n).grow s)
  var_or_cat-Evolves false false n s e f = rw (e, f, var_or_cat) ((real-Grows n).grow s)

  var_or_cat-Grows : (n : String) → Grows roo (var_or_cat roo {R = R} n)
  var_or_cat-Grows n = record { grow = λ s. var_or_cat-Evolves _ _ n s refl refl }

  var_list_of-Grows : (ns : List String) → Grows roo (var_list_of roo {R = R} ns)
  unfolding var_list_of
  var_list_of-Grows [] = Grows-pure roo []
  var_list_of-Grows (n ∷ ns) =
      Grows-bind roo _ _ (var_or_cat-Grows n)
        (λ o. Grows-bind roo _ _ (var_list_of-Grows ns) (λ os. Grows-pure roo (o ∷ os)))

  define_in-Evolves :
      (k ns : String) (os : List Object) (x : Option W) (s : EasyPdf W R)
      → s.ws ≡ x
      → Evolves roo s
          (record s { variable_sets = assign k ns s.variable_sets; ws = define_in roo x k os })
  define_in-Evolves k ns os none s e = frame-Evolves roo _ _ refl (sym e) (λ j b h. h)
  define_in-Evolves k ns os (some w) s e = record {
    extends = λ t j o h. h;
    binned = λ j b h. h;
    coherent =
        λ l c v h t j o i. ground (arith, l.define_set_keeps k (names_of os) w j, c w e t j o i);
  }

  define_named-Grows :
      (k ns : String) (os : List Object) → Grows roo (define_named roo {R = R} k ns os)
  unfolding define_named
  define_named-Grows k ns os = record {
    grow = λ s. elim (Bool-cases (str_eq k "")) [
      | inl e ↦ rw (e, define_named) (Evolves-refl roo s)
      | inr e ↦ rw (e, define_named) (define_in-Evolves k ns os s.ws s refl)
    ];
  }

  vars_set-Grows : (ns k : String) → Grows roo (vars_set roo {R = R} ns k)
  unfolding vars_set
  vars_set-Grows ns k =
      Grows-bind roo _ _ (var_list_of-Grows (roo.tokens ns)) (define_named-Grows k ns)

  get_set-Grows : (k : String) → Grows roo (get_set roo {R = R} k)
  unfolding get_set
  get_set-Grows k = record { grow = λ s. go s (find k s.variable_sets) refl }
    where
      go :
          (s : EasyPdf W R) (x : Option String)
          → find k s.variable_sets ≡ x
          → Evolves roo s (get_set roo k s).1
      go s none e = rw (e, get_set) (Evolves-refl roo s)
      go s (some ns) e = rw (e, get_set) ((vars_set-Grows ns "").grow s)

  -- A binning with a new name.
  binned_new :
      (n : String) (b : BinningObject R) (s : EasyPdf W R)
      → (find n s.binnings ≡ none) ⊎ (has_key n s.binnings ≡ false)
      → ExtendsBinnings s (record s { binnings = assign n b s.binnings })
  unfolding has_key
  binned_new n b s new k c h = ground (arith, find-assign n k b s.binnings, eq_iff n k)

  binning-Grows : (n : String) → Grows roo (binning {W = W} {R = R} n)
  unfolding binning
  binning-Grows n = record {
    grow = λ s. elim (Option-cases (find n s.binnings)) [
      | inl e ↦ rw (e, binning) (frame-Evolves roo s _ refl refl (binned_new n _ s (inl e)))
      | inr (b, e) ↦ rw (e, binning) (Evolves-refl roo s)
    ];
  }

  add_binning-Grows : (n : String) (l : List R) → Grows roo (add_binning {W = W} n l)
  unfolding add_binning
  add_binning-Grows n l = record {
    grow = λ s. elim (Bool-cases (has_key n s.binnings)) [
      | inl e ↦ rw (e, add_binning) (Evolves-refl roo s)
      | inr e ↦ rw (e, add_binning) (frame-Evolves roo s _ refl refl (binned_new n _ s (inr e)))
    ];
  }

  keys_pdf-Grows : (n : String) (x : Option Object) → Grows roo (keys_pdf roo {R = R} n x)
  unfolding keys_pdf
  keys_pdf-Grows n none = record { grow = Evolves-refl roo }
  keys_pdf-Grows n (some o) = record {
    grow = (add_pdf_to_store-Grows roo (record o { name = n })).grow;
  }

  hist_pdf-Grows :
      (n : String) (l : List String) (b : Bool) (h : String)
      → Grows roo (hist_pdf roo {R = R} n l b h)
  unfolding hist_pdf
  hist_pdf-Grows n l false h = record { grow = Evolves-refl roo }
  hist_pdf-Grows n l true h = record {
    grow = λ s.
        let s' : EasyPdf W R = record s { hists = s.hists ++ (hist_clone h ∷ []) } in
        Evolves-trans roo s s' _ (frame-Evolves roo s s' refl refl (λ k b h. h))
          ((add_pdf_to_store-Grows roo (make n Class.hist_pdf (hist_clone h ∷ l))).grow s');
  }

  forget-Grows : {A : Type 0} (m : M W R A) → Grows roo m → Grows roo (drop_result roo m)
  forget-Grows m g = Grows-then roo m (pure tt) g (Grows-pure roo tt)

  super_cat-Grows : (n : String) (l : List String) → Grows roo (super_cat roo {R = R} n l)
  unfolding super_cat
  super_cat-Grows n l = add-Grows roo supercats _

  unblind-Grows : (n b v : String) → Grows roo (unblind roo {R = R} n b v)
  unfolding unblind
  unblind-Grows n b v = add-Grows roo hidden_reals _

  add_real_to_store-Grows : (o : Object) → Grows roo (add_real_to_store roo {R = R} o)
  unfolding add_real_to_store
  add_real_to_store-Grows o = add-Grows roo external_reals o

  var_list-Grows : (n : String) → Grows roo (var_list roo {R = R} n)
  unfolding var_list
  var_list-Grows n = var_list_of-Grows (roo.tokens n)

  pub serve-Grows : (q : Request R) → Grows roo (serve roo q)
  unfolding serve
  serve-Grows (Request.gets_var n) = forget-Grows _ (var-Grows n)
  serve-Grows (Request.gets_cat n) = forget-Grows _ (cat-Grows n)
  serve-Grows (Request.gets_real n) = forget-Grows _ (real-Grows n)
  serve-Grows (Request.gets_binning n) = forget-Grows _ (binning-Grows n)
  serve-Grows (Request.gets_set n) = forget-Grows _ (get_set-Grows n)
  serve-Grows (Request.adds_super_cat n l) = forget-Grows _ (super_cat-Grows n l)
  serve-Grows (Request.adds_formula n f l) = forget-Grows _ (BuilderGrowth.formula-Grows roo n f l)
  serve-Grows (Request.adds_unblind n b v) = forget-Grows _ (unblind-Grows n b v)
  serve-Grows (Request.adds_real o) = forget-Grows _ (add_real_to_store-Grows o)
  serve-Grows (Request.adds_pdf o) = forget-Grows _ (BuilderGrowth.add_pdf_to_store-Grows roo o)
  serve-Grows (Request.adds_binning n l) = forget-Grows _ (add_binning-Grows n l)
  serve-Grows (Request.lists_vars n) = forget-Grows _ (var_list-Grows n)
  serve-Grows (Request.defines_set n k) = forget-Grows _ (vars_set-Grows n k)
  serve-Grows (Request.loads_keys n o) = forget-Grows _ (keys_pdf-Grows n o)
  serve-Grows (Request.loads_hist n l b h) = forget-Grows _ (hist_pdf-Grows n l b h)
  serve-Grows (Request.double_lognormals n x a b c d e) =
      forget-Grows _ (BuilderGrowth.double_lognormal-Grows roo n x a b c d e)
  serve-Grows (Request.double_gausses n x a b c d) =
      forget-Grows _ (BuilderGrowth.double_gauss_model-Grows roo n x a b c d)
  serve-Grows (Request.triple_gausses n x a b c d e f) =
      forget-Grows _ (BuilderGrowth.triple_gauss_model-Grows roo n x a b c d e f)
  serve-Grows (Request.quad_gausses n x a b c d e f g h) =
      forget-Grows _ (BuilderGrowth.quad_gauss_model-Grows roo n x a b c d e f g h)
  serve-Grows (Request.double_scaled n x a b c d e) =
      forget-Grows _ (BuilderGrowth.double_gauss_model_scaled-Grows roo n x a b c d e)
  serve-Grows (Request.triple_scaled n x a b c d e f) =
      forget-Grows _ (BuilderGrowth.triple_gauss_model_scaled-Grows roo n x a b c d e f)
  serve-Grows (Request.quad_scaled n x a b c d e f g h) =
      forget-Grows _ (BuilderGrowth.quad_gauss_model_scaled-Grows roo n x a b c d e f g h)
  serve-Grows (Request.quin_scaled n x a b c d e f g h i j) =
      forget-Grows _ (BuilderGrowth.quin_gauss_model_scaled-Grows roo n x a b c d e f g h i j)
  serve-Grows (Request.double_per_event n x a b c d e f) =
      forget-Grows _ (BuilderGrowth.double_gauss_model_per_event-Grows roo n x a b c d e f)
  serve-Grows (Request.triple_per_event n x a b c d e f g h) =
      forget-Grows _ (BuilderGrowth.triple_gauss_model_per_event-Grows roo n x a b c d e f g h)
  serve-Grows (Request.double_efficiency n x a b c d e) =
      forget-Grows _ (BuilderGrowth.double_gauss_efficiency_model-Grows roo n x a b c d e)
  serve-Grows (Request.triple_efficiency n x a b c d e f g) =
      forget-Grows _ (BuilderGrowth.triple_gauss_efficiency_model-Grows roo n x a b c d e f g)
  serve-Grows (Request.double_efficiency_per_event n x a b c d e f) =
      forget-Grows _
        (BuilderGrowth.double_gauss_efficiency_model_per_event-Grows roo n x a b c d e f)
  serve-Grows (Request.double_gaussians n x a b c d e) =
      forget-Grows _ (BuilderGrowth.double_gaussian_scaled-Grows roo n x a b c d e)
  serve-Grows (Request.triple_gaussians n x a b c d e f) =
      forget-Grows _ (BuilderGrowth.triple_gaussian_scaled-Grows roo n x a b c d e f)
  serve-Grows (Request.double_decays n t a b c d) =
      forget-Grows _ (BuilderGrowth.double_decay-Grows roo n t a b c d)
  serve-Grows (Request.double_decays_scaled n t a b c d e) =
      forget-Grows _ (BuilderGrowth.double_decay_scaled-Grows roo n t a b c d e)
  serve-Grows (Request.triple_decays n t a b c d e f) =
      forget-Grows _ (BuilderGrowth.triple_decay-Grows roo n t a b c d e f)

  serve_all-Evolves : (qs : List (Request R)) (s : EasyPdf W R) → Evolves roo s (serve_all roo qs s)
  unfolding serve_all
  serve_all-Evolves [] s = Evolves-refl roo s
  serve_all-Evolves (q ∷ qs) s =
      Evolves-trans roo s (serve roo q s).1 (serve_all roo qs (serve roo q s).1)
        ((serve-Grows q).grow s) (serve_all-Evolves qs (serve roo q s).1)

  -- Whatever functions of EasyPdf other than PurgeAllObjects are called, with a workspace or without,
  -- and whether or not they throw: every object and every binning that a map of the pool holds stays
  -- there, unchanged, under its name.
  pub serve_all-Extends :
      (qs : List (Request R)) (s : EasyPdf W R)
      → Extends s (serve_all roo qs s) × ExtendsBinnings s (serve_all roo qs s)
  serve_all-Extends qs s = let e = serve_all-Evolves qs s in (e.extends, e.binned)

  -- If an import and a set definition leave the objects of the workspace as they are, and every
  -- object of the pool is the workspace's object of its name, then so it is after any calls of
  -- functions of EasyPdf other than PurgeAllObjects, whether or not they throw.
  pub serve_all-IsCoherent :
      (qs : List (Request R)) (s : EasyPdf W R)
      → Laws roo
      → IsCoherent roo s
      → IsCoherent roo (serve_all roo qs s)
  serve_all-IsCoherent qs s l c = (serve_all-Evolves qs s).coherent l c
