-- ===== src/Builder/EasyPdf/Lookup.antt =====
-- EasyPdf: what a name stands for, and the sets of variables (Vars, VarList, Set, Real, Pdf).
use doo_fit.Base.{
  String, true, false, Option, none, some, List, [], ◌∷◌, find, find-assign, find-assign_self,
  eq_iff, eq_refl, has_key, str_eq, Bool-cases, Option-cases, inl, inr, ◌≡◌, refl, sym, ◌∙◌, ap,
  arith,
}
use doo_fit.Builder.EasyPdf.Pool.{
  Object, Store, vars, cats, pdfs, real_var, Result, ok, throw, object_exists, RooFit, EasyPdf, M,
  and_then, ◌>>=◌, put, got, keep_in, keep, add,
}
use doo_fit.Builder.EasyPdf.Access.{
  make, or_else, real_object, real_exists, get_pdf, existing, var, cat, real, add_pdf_to_store,
  var_or_cat, var_list_of, define_named, vars_set, get_set,
}

module _ {W R : Type 0} where
  -- The object that a name of Vars stands for, none where a new variable is created.
  abbrev resolve : EasyPdf W R → String → Option Object
  resolve s n = or_else (find n (s.slot vars)) (or_else (find n (s.slot cats)) (real_object s n))

  put_var-same : (n : String) (o : Object) (s : EasyPdf W R) → resolve (put vars n o s) n ≡ some o
  put_var-same n o s = ground (arith, find-assign n n o (s.slot vars), eq_refl n)

  put_var-keeps :
      (n : String) (o : Object) (s : EasyPdf W R) (m : String) (p : Object)
      → resolve s n ≡ none
      → resolve s m ≡ some p
      → resolve (put vars n o s) m ≡ some p
  put_var-keeps n o s m p new h = elim (Bool-cases (str_eq n m)) [
    | inl e ↦ ground (arith, eq_iff n m, ap (resolve s) ((eq_iff n m).0 e))
    | inr e ↦ rw (find-assign n m o (s.slot vars), e) h
  ]

module _ {W R A B : Type 0} where
  bind-eq-ok :
      (m : M W R A) (f : A → M W R B) (s : EasyPdf W R) (b : B) (s' : EasyPdf W R)
      → (m >>= f) s ≡ (ok b, s')
      → (a : A) × (t : EasyPdf W R) × (m s ≡ (ok a, t)) × (f a t ≡ (ok b, s'))
  unfolding ◌>>=◌
  bind-eq-ok m f s b s' h = go (m s) refl h
    where
      go :
          (x : Result A × EasyPdf W R)
          → m s ≡ x
          → and_then x.0 f x.1 ≡ (ok b, s')
          → (a : A) × (t : EasyPdf W R) × (m s ≡ (ok a, t)) × (f a t ≡ (ok b, s'))
      go (ok a, t) e h = (a, t, e, h)
      go (throw x, t) e h = ground arith

  bind-ok :
      (m : M W R A) (f : A → M W R B) (s : EasyPdf W R) (a : A) (t : EasyPdf W R)
      → m s ≡ (ok a, t)
      → (m >>= f) s ≡ f a t
  unfolding ◌>>=◌
  bind-ok m f s a t e = simp e

module _ {W : Type 0} (roo : RooFit W) {R : Type 0} where
  var_or_cat-found :
      (n : String) (o : Object) (s : EasyPdf W R)
      → resolve s n ≡ some o
      → var_or_cat roo n s ≡ (ok o, s)
  unfolding var_or_cat var cat real has_key
  var_or_cat-found n o s h = ground arith

  var_or_cat-new :
      (n : String) (s : EasyPdf W R)
      → resolve s n ≡ none
      → var_or_cat roo n s ≡ keep roo vars (make n real_var []) s
  unfolding var_or_cat var cat real has_key
  var_or_cat-new n s h = ground arith

  -- `keep` returns the object that it puts into the map.
  got-eq-ok :
      (t : Store) (k : String) (x : Option Object) (s : EasyPdf W R) (q : Object) (s' : EasyPdf W R)
      → got roo t k x s ≡ (ok q, s')
      → s'.slot ≡ (put t k q s).slot
  got-eq-ok t k none s q s' h = ground arith
  got-eq-ok t k (some p) s q s' h = ground arith

  keep_in-eq-ok :
      (t : Store) (o : Object) (x : Option W) (s : EasyPdf W R) (q : Object) (s' : EasyPdf W R)
      → keep_in roo t o x s ≡ (ok q, s')
      → s'.slot ≡ (put t o.name q s).slot
  keep_in-eq-ok t o none s q s' h = ground arith
  keep_in-eq-ok t o (some w) s q s' h = got-eq-ok t o.name _ _ q s' h

  keep-eq-ok :
      (t : Store) (o : Object) (s : EasyPdf W R) (q : Object) (s' : EasyPdf W R)
      → keep roo t o s ≡ (ok q, s')
      → s'.slot ≡ (put t o.name q s).slot
  unfolding keep
  keep-eq-ok t o s q s' h = keep_in-eq-ok t o s.ws s q s' h

  -- What the names of `s` stand for, they stand for in `s'`.
  abbrev Resolves : EasyPdf W R → EasyPdf W R → Type 0
  Resolves s s' = (m : String) (p : Object) → resolve s m ≡ some p → resolve s' m ≡ some p

  var_or_cat-Resolves :
      (n : String) (s : EasyPdf W R) (o : Object) (s' : EasyPdf W R)
      → var_or_cat roo n s ≡ (ok o, s')
      → (resolve s' n ≡ some o) × Resolves s s'
  var_or_cat-Resolves n s o s' h = elim (Option-cases (resolve s n)) [
    | inl e ↦
        let k : s'.slot ≡ (put vars n o s).slot =
          keep-eq-ok vars (make n real_var []) s o s' (rw (var_or_cat-new n s e) at h) in
        (
          ground (arith, k, put_var-same n o s),
          λ m p i. ground (arith, k, put_var-keeps n o s m p e i),
        )
    | inr (p, e) ↦ (
      ground (arith, var_or_cat-found n p s e),
      λ m q i. ground (arith, var_or_cat-found n p s e),
    )
  ]

  -- A list of names, resolved again where its names stand for the same objects.
  var_list_of-again :
      (ns : List String) (s : EasyPdf W R) (os : List Object) (s' : EasyPdf W R)
      → var_list_of roo ns s ≡ (ok os, s')
      → Resolves s s' × ((t : EasyPdf W R) → Resolves s' t → var_list_of roo ns t ≡ (ok os, t))
  unfolding var_list_of
  var_list_of-again [] s os s' h = (λ m p i. ground arith, λ t r. ground arith)
  var_list_of-again (n ∷ ns) s os s' h =
      let (o, s1, e1, h1) = bind-eq-ok _ _ s os s' h in
      let (os1, s2, e2, h2) = bind-eq-ok _ _ s1 os s' h1 in
      let (now, r1) = var_or_cat-Resolves n s o s1 e1 in
      let (r2, again) = var_list_of-again ns s1 os1 s2 e2 in
      let same : s2 ≡ s' = ground arith in
      (
        λ m p i. rw same at (r2 m p (r1 m p i)),
        λ t r.
            bind-ok _ _ t o t (var_or_cat-found n o t (r n o (rw same at (r2 n o now))))
            ∙ (bind-ok _ _ t os1 t (again t (rw (sym same) at r)) ∙ ground arith),
      )

  define_named-eq-ok :
      (k ns : String) (l os : List Object) (s s' : EasyPdf W R)
      → str_eq k "" ≡ false
      → define_named roo k ns l s ≡ (ok os, s')
      → (l ≡ os) × (s'.slot ≡ s.slot) × (find k s'.variable_sets ≡ some ns)
  unfolding define_named
  define_named-eq-ok k ns l os s s' e h = ground (arith, find-assign_self k ns s.variable_sets)

  get_set-found :
      (k ns : String) (s : EasyPdf W R)
      → find k s.variable_sets ≡ some ns
      → get_set roo k s ≡ vars_set roo ns "" s
  unfolding get_set
  get_set-found k ns s e = rw (e, get_set) refl

  vars_set-again :
      (ns : String) (s : EasyPdf W R) (os : List Object)
      → var_list_of roo (roo.tokens ns) s ≡ (ok os, s)
      → vars_set roo ns "" s ≡ (ok os, s)
  unfolding vars_set define_named
  vars_set-again ns s os e = bind-ok _ _ s os s e ∙ refl

  -- If Vars(names, k) returns, with a name k that is not empty, then Set(k) returns the same objects
  -- in the same order and leaves the pool as it is.
  pub vars_set-get_set :
      (ns k : String) (s : EasyPdf W R) (os : List Object) (s' : EasyPdf W R)
      → str_eq k "" ≡ false
      → vars_set roo ns k s ≡ (ok os, s')
      → get_set roo k s' ≡ (ok os, s')
  unfolding vars_set
  vars_set-get_set ns k s os s' e h =
      let (l, s1, e1, h1) = bind-eq-ok _ _ s os s' h in
      let (r, again) = var_list_of-again (roo.tokens ns) s l s1 e1 in
      let (same, slots, set) = define_named-eq-ok k ns l os s1 s' e h1 in
      get_set-found k ns s' set
      ∙ vars_set-again ns s' os (rw same at (again s' (λ m p i. rw slots i)))

  -- If Real(n) returns an object, then RealExists(n) holds, and Real(n) returns the same object
  -- again and leaves the pool as it is.
  real-real_exists :
      (n : String) (s : EasyPdf W R) (o : Object) (s' : EasyPdf W R)
      → real roo n s ≡ (ok o, s')
      → (real_exists s' n ≡ true) × (real roo n s' ≡ (ok o, s'))
  unfolding real real_exists var has_key
  real-real_exists n s o s' h = elim (Option-cases (real_object s n)) [
    | inl e ↦
        let k : s'.slot ≡ (put vars n o s).slot =
          keep-eq-ok vars (make n real_var []) s o s' ground (arith) in
        ground (arith, k, find-assign_self n o (s.slot vars))
    | inr (p, e) ↦ ground arith
  ]

  -- If AddPdfToStore returns an object q, then Pdf(name) returns q, and adding any object of that
  -- name throws ObjectExistsException; both leave the pool as it is.
  pub add_pdf_to_store-get_pdf :
      (o p : Object) (s : EasyPdf W R) (q : Object) (s' : EasyPdf W R)
      → add_pdf_to_store roo o s ≡ (ok q, s')
      → p.name ≡ o.name
      → (get_pdf o.name s' ≡ (ok q, s')) × (add_pdf_to_store roo p s' ≡ (throw object_exists, s'))
  unfolding add_pdf_to_store get_pdf existing add has_key
  add_pdf_to_store-get_pdf o p s q s' h same = elim (Option-cases (find o.name (s.slot pdfs))) [
    | inl e ↦
        let k : s'.slot ≡ (put pdfs o.name q s).slot = keep-eq-ok pdfs o s q s' ground (arith) in
        ground (arith, k, find-assign_self o.name q (s.slot pdfs))
    | inr (x, e) ↦ ground arith
  ]
