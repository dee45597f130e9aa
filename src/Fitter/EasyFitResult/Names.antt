-- ===== src/Fitter/EasyFitResult/Names.antt =====
-- A conversion into an initialized EasyFitResult keeps the names of the parameters and the number of
-- status entries, so the addresses that a tree reads stay valid.
use doo_fit.Base.{
  ℕ, zero, suc, ltb, String, true, List, [], ◌∷◌, length, set, ℤ, Dict, assign, has_key,
  has_key-assign, eq_iff, str_eq, Bool-cases, inl, inr, ◌≡◌, refl, ◌∙◌, sym, arith, subst,
}
use doo_fit.Fitter.EasyFitResult.Convert.{
  RooRealVar, EasyFitVariable, easy_fit_variable, RooFitResult, EasyFitResult, Double, Outcome,
  returned, out_of_range, and_then, copy_status, clear_status, update_pars, convert_roo_fit_result,
  transfer_numbers, transfer_status, clear_rest, update_const, update_final, update_init,
  convert_all, refill,
}

pub length-set : {A : Type 0} (xs : List A) (i : ℕ) (x : A) → length (set xs i x) ≡ length xs
length-set [] i x = refl
length-set (y ∷ xs) zero x = refl
length-set (y ∷ xs) (suc i) x = omega (arith, length-set xs i x)

pub length-clear_status :
    (c i : ℕ) (ptrs : List (String × ℤ)) → length (clear_status c i ptrs) ≡ length ptrs
unfolding clear_status
length-clear_status zero i ptrs = refl
length-clear_status (suc c) i ptrs = length-clear_status c (suc i) _ ∙ length-set ptrs i _

length-copy_status :
    (n i : ℕ) (xs : List (String × ℤ)) (ptrs : List (String × ℤ)) (num : ℕ)
    → length (copy_status n i xs (ptrs, num)).1.0 ≡ length ptrs
unfolding copy_status
length-copy_status n i [] ptrs num = refl
length-copy_status n i (x ∷ xs) ptrs num = elim (Bool-cases (ltb i (length ptrs))) [
  | inl t ↦ rw t (length-copy_status n (suc i) xs (set ptrs i x) _ ∙ length-set ptrs i x)
  | inr t ↦ rw t refl
]

has_key-assign_old :
    {A : Type 0} (k n : String) (v : A) (m : Dict A)
    → has_key k m ≡ true
    → has_key n (assign k v m) ≡ has_key n m
has_key-assign_old k n v m h = elim (Bool-cases (str_eq k n)) [
  | inl e ↦
      let at : k ≡ n = (eq_iff k n).0 e in
      let old : has_key n m ≡ true = subst (λ n. has_key n m ≡ true) at h in
      rw (has_key-assign k n v m, e) (sym old)
  | inr e ↦ rw (has_key-assign k n v m, e) refl
]

module _ {D : Type 0} where
  pub record IsSameFrame (r r' : EasyFitResult D) : Type 0 where
    pub const_names : (n : String) → has_key n r'.parameters_const ≡ has_key n r.parameters_const
    pub final_names :
        (n : String) → has_key n r'.parameters_float_final ≡ has_key n r.parameters_float_final
    pub init_names :
        (n : String) → has_key n r'.parameters_float_init ≡ has_key n r.parameters_float_init
    pub entries : length r'.status_ptrs ≡ length r.status_ptrs
    pub still : r'.initialized ≡ r.initialized

  transfer_status-IsSameFrame :
      (f : RooFitResult D) (r : EasyFitResult D) → IsSameFrame r (transfer_status f r).1
  transfer_status-IsSameFrame f r = record {
    const_names = λ n. refl;
    final_names = λ n. refl;
    init_names = λ n. refl;
    entries = length-copy_status _ 0 f.status_history r.status_ptrs r.num_status;
    still = refl;
  }

  IsSameFrame-refl : (r : EasyFitResult D) → IsSameFrame r r
  IsSameFrame-refl r = record {
    const_names = λ n. refl;
    final_names = λ n. refl;
    init_names = λ n. refl;
    entries = refl;
    still = refl;
  }

  IsSameFrame-trans :
      (r s t : EasyFitResult D) → IsSameFrame r s → IsSameFrame s t → IsSameFrame r t
  IsSameFrame-trans r s t a b = record {
    const_names = λ n. b.const_names n ∙ a.const_names n;
    final_names = λ n. b.final_names n ∙ a.final_names n;
    init_names = λ n. b.init_names n ∙ a.init_names n;
    entries = b.entries ∙ a.entries;
    still = b.still ∙ a.still;
  }

  and_then-IsSameFrame :
      (r : EasyFitResult D) (x : Outcome × EasyFitResult D)
      (f : EasyFitResult D → Outcome × EasyFitResult D)
      → IsSameFrame r x.1
      → ((s : EasyFitResult D) → IsSameFrame s (f s).1)
      → IsSameFrame r (and_then x f).1
  and_then-IsSameFrame r (returned, s) f a b = IsSameFrame-trans r s (f s).1 a (b s)
  and_then-IsSameFrame r (out_of_range, s) f a b = a

  clear_rest-IsSameFrame :
      (f : RooFitResult D) (r : EasyFitResult D) → IsSameFrame r (clear_rest f r)
  clear_rest-IsSameFrame f r = record {
    const_names = λ n. refl;
    final_names = λ n. refl;
    init_names = λ n. refl;
    entries = length-clear_status _ _ r.status_ptrs;
    still = refl;
  }

  transfer_numbers-IsSameFrame :
      (f : RooFitResult D) (r : EasyFitResult D) → IsSameFrame r (transfer_numbers f r)
  transfer_numbers-IsSameFrame f r = record {
    const_names = λ n. refl;
    final_names = λ n. refl;
    init_names = λ n. refl;
    entries = refl;
    still = refl;
  }

module _ {D : Type 0} (double : Double D) where
  update_pars-keys :
      (vs : List (RooRealVar D)) (m : Dict (EasyFitVariable D)) (n : String)
      → has_key n (update_pars double vs m).1 ≡ has_key n m
  unfolding update_pars
  update_pars-keys [] m n = refl
  update_pars-keys (v ∷ vs) m n = elim (Bool-cases (has_key v.name m)) [
    | inl t ↦
        rw t
          (update_pars-keys vs _ n ∙ has_key-assign_old v.name n (easy_fit_variable double v) m t)
    | inr t ↦ rw t refl
  ]

  update_const-IsSameFrame :
      (f : RooFitResult D) (r : EasyFitResult D) → IsSameFrame r (update_const double f r).1
  update_const-IsSameFrame f r = record {
    const_names = update_pars-keys f.const_pars r.parameters_const;
    final_names = λ n. refl;
    init_names = λ n. refl;
    entries = refl;
    still = refl;
  }

  update_final-IsSameFrame :
      (f : RooFitResult D) (r : EasyFitResult D) → IsSameFrame r (update_final double f r).1
  update_final-IsSameFrame f r = record {
    final_names = update_pars-keys f.float_pars_final r.parameters_float_final;
    const_names = λ n. refl;
    init_names = λ n. refl;
    entries = refl;
    still = refl;
  }

  update_init-IsSameFrame :
      (f : RooFitResult D) (r : EasyFitResult D) → IsSameFrame r (update_init double f r).1
  update_init-IsSameFrame f r = record {
    init_names = update_pars-keys f.float_pars_init r.parameters_float_init;
    final_names = λ n. refl;
    const_names = λ n. refl;
    entries = refl;
    still = refl;
  }

  refill-IsSameFrame :
      (f : RooFitResult D) (r : EasyFitResult D) → IsSameFrame r (refill double f r).1
  unfolding refill
  refill-IsSameFrame f r =
      and_then-IsSameFrame r (transfer_status f r) _ (transfer_status-IsSameFrame f r) (λ r1.
        IsSameFrame-trans r1 (clear_rest f r1) _ (clear_rest-IsSameFrame f r1) (
          and_then-IsSameFrame (clear_rest f r1) (update_const double f (clear_rest f r1)) _
            (update_const-IsSameFrame f (clear_rest f r1))
            (λ r2.
              and_then-IsSameFrame r2 (update_final double f r2) _ (update_final-IsSameFrame f r2)
                (update_init-IsSameFrame f))))

  pub convert-eq-refill :
      (f : RooFitResult D) (r : EasyFitResult D)
      → r.initialized ≡ true
      → convert_roo_fit_result double f r ≡ refill double f (transfer_numbers f r)
  unfolding convert_roo_fit_result
  convert-eq-refill f r i = ground arith

  convert-IsSameFrame :
      (f : RooFitResult D) (r : EasyFitResult D)
      → r.initialized ≡ true
      → IsSameFrame r (convert_roo_fit_result double f r).1
  convert-IsSameFrame f r i =
      let r0 = transfer_numbers f r in
      subst (λ x. IsSameFrame r x.1) (sym (convert-eq-refill f r i))
        (IsSameFrame-trans r r0 _ (transfer_numbers-IsSameFrame f r) (refill-IsSameFrame f r0))

  -- Any number of conversions into an initialized EasyFitResult, whether or not they throw, keep the
  -- names of the constant, final and initial parameters, and the number of status entries.
  pub convert_all-IsSameFrame :
      (fs : List (RooFitResult D)) (r : EasyFitResult D)
      → r.initialized ≡ true
      → IsSameFrame r (convert_all double fs r)
  unfolding convert_all
  convert_all-IsSameFrame [] r i = IsSameFrame-refl r
  convert_all-IsSameFrame (f ∷ fs) r i =
      let one = convert-IsSameFrame f r i in
      IsSameFrame-trans r _ _ one (convert_all-IsSameFrame fs _ (one.still ∙ i))
