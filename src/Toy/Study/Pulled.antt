-- ===== src/Toy/Study/Pulled.antt =====
-- The pulls of BuildEvaluationArgSet beside the residuals.
use doo_fit.Base.{
  ◌+◌, true, false, Bool-cases, ℤ, pos, negsuc, pos_part, neg_part, ◌+ℤ◌, ◌-ℤ◌, +ℤ_parts, -ℤ_parts,
  inl, inr, ◌⊎◌, ◌≡◌, refl, arith,
}
use doo_fit.Fitter.EasyFitResult.Convert.{RooRealVar}
use doo_fit.Toy.Study.Pulls.{
  Double, PullConfig, get_error, get_error_lo, get_error_hi, is_asymmetric, pull_value, res_value,
}

-- Sums, differences and negations of doubles are exact. `value` is the number that a double stands
-- for, in some unit.
pub record Exact {D : Type 0} (double : Double D) : Type 0 where
  pub value : D → ℤ
  pub value_add : (a b : D) → value (double.add a b) ≡ value a +ℤ value b
  pub value_sub : (a b : D) → value (double.sub a b) ≡ value a -ℤ value b
  pub value_neg : (a : D) → value (double.neg a) ≡ pos 0 -ℤ value a

parts_eq : (a b : ℤ) → pos_part a + neg_part b ≡ neg_part a + pos_part b → a ≡ b
parts_eq (pos m) (pos n) h = ground arith
parts_eq (pos m) (negsuc n) h = absurd (omega arith)
parts_eq (negsuc m) (pos n) h = absurd (omega arith)
parts_eq (negsuc m) (negsuc n) h = ground arith

symmetric_lem : (v i b : ℤ) → pos 0 -ℤ ((i -ℤ v) -ℤ b) ≡ (pos 0 -ℤ ((b +ℤ i) -ℤ v)) +ℤ (b +ℤ b)
symmetric_lem v i b = parts_eq _ _ (
    omega (
      arith,
      -ℤ_parts (pos 0) ((i -ℤ v) -ℤ b),
      -ℤ_parts (i -ℤ v) b,
      -ℤ_parts i v,
      +ℤ_parts (pos 0 -ℤ ((b +ℤ i) -ℤ v)) (b +ℤ b),
      -ℤ_parts (pos 0) ((b +ℤ i) -ℤ v),
      -ℤ_parts (b +ℤ i) v,
      +ℤ_parts b i,
      +ℤ_parts b b,
    ))

low_lem : (v i b : ℤ) → pos 0 -ℤ ((v -ℤ i) -ℤ b) ≡ pos 0 -ℤ (pos 0 -ℤ ((b +ℤ i) -ℤ v))
low_lem v i b = parts_eq _ _ (
    omega (
      arith,
      -ℤ_parts (pos 0) ((v -ℤ i) -ℤ b),
      -ℤ_parts (v -ℤ i) b,
      -ℤ_parts v i,
      -ℤ_parts (pos 0) (pos 0 -ℤ ((b +ℤ i) -ℤ v)),
      -ℤ_parts (pos 0) ((b +ℤ i) -ℤ v),
      -ℤ_parts (b +ℤ i) v,
      +ℤ_parts b i,
    ))

module _ {D : Type 0} (double : Double D) (config : PullConfig D) (exact : Exact double) where
  open exact use {value, value_add, value_sub, value_neg}

  -- The pull is a quotient by some error; the number above it has some value.
  abbrev pub IsQuotient : D → D → ℤ → Type 0
  IsQuotient pull err v = (n : D) × (pull ≡ double.div n err) × (value n ≡ v)

  -- How the pull of a parameter comes from its residual.
  abbrev pub IsPull : (par init fit_bias : RooRealVar D) → Type 0
  IsPull par init fit_bias =
      let pull = pull_value double config par init fit_bias in
      let res = value (res_value double config par init fit_bias) in
      let bias = value fit_bias.val in
      ((is_asymmetric double config par ≡ false)
        × IsQuotient pull (get_error double config par) (res +ℤ (bias +ℤ bias)))
      ⊎ (((is_asymmetric double config par ≡ true)
            × (double.less_or_equal par.val init.val ≡ true)
            × IsQuotient pull (get_error_hi double config par) res)
          ⊎ ((is_asymmetric double config par ≡ true)
              × (double.less_or_equal par.val init.val ≡ false)
              × IsQuotient pull (get_error_lo double config par) (pos 0 -ℤ res)))

  -- Where doubles are added and subtracted exactly, the pull of a parameter is its residual over the
  -- high error where asymmetric errors are used and the value is at most the initial one, the negative
  -- of the residual over the low error where it is larger, and with the symmetric error it is the
  -- residual plus twice the fit bias, over that error.
  pub pull_value_lem : (par init fit_bias : RooRealVar D) → IsPull par init fit_bias
  unfolding pull_value res_value
  pull_value_lem par init fit_bias =
      let v = par.val in
      let i = init.val in
      let b = fit_bias.val in
      elim (Bool-cases (is_asymmetric double config par)) [
        | inl a ↦ elim (Bool-cases (double.less_or_equal v i)) [
          | inl l ↦
              inr (inl (a, l, (double.neg (double.sub (double.add b i) v), rw (a, l) refl, refl)))
          | inr l ↦ inr (
              inr (
                a,
                l,
                (
                  double.neg (double.sub (double.sub v i) b),
                  rw (a, l) refl,
                  rw
                      (
                        value_neg (double.sub (double.sub v i) b),
                        value_sub (double.sub v i) b,
                        value_sub v i,
                        value_neg (double.sub (double.add b i) v),
                        value_sub (double.add b i) v,
                        value_add b i,
                      )
                      (low_lem (value v) (value i) (value b)),
                ),
              ))
        ]
        | inr a ↦ inl (
          a,
          (
            double.neg (double.sub (double.sub i v) b),
            rw a refl,
            rw
                (
                  value_neg (double.sub (double.sub i v) b),
                  value_sub (double.sub i v) b,
                  value_sub i v,
                  value_neg (double.sub (double.add b i) v),
                  value_sub (double.add b i) v,
                  value_add b i,
                )
                (symmetric_lem (value v) (value i) (value b)),
          ),
        )
      ]
