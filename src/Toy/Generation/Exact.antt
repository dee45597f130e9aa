-- ===== src/Toy/Generation/Exact.antt =====
-- Doubles where they compute exactly: in thousandths, as integers. `value` is the number that a
-- double stands for. boost::math::iround rounds to the nearest integer, ties away from zero; no number is
-- too large for that.
use doo_fit.Base.{◌+◌, ◌*◌, ◌/◌, true, false, ℤ, pos, pos_part, neg_part, ◌+ℤ◌, ◌-ℤ◌, ◌≡◌, ◌↔◌}
use doo_fit.Toy.Generation.Pdf.{Double}

pub record Exact {D : Type 0} (double : Double D) : Type 0 where
  pub value : D → ℤ
  pub value_zero : value double.zero_ ≡ pos 0
  pub value_half : value double.half ≡ pos 500
  pub value_int :
      (n : ℤ)
      → (pos_part (value (double.of_int n)) ≡ 1000 * pos_part n)
        × (neg_part (value (double.of_int n)) ≡ 1000 * neg_part n)
  pub value_add : (a b : D) → value (double.add a b) ≡ value a +ℤ value b
  pub value_sub : (a b : D) → value (double.sub a b) ≡ value a -ℤ value b
  pub value_neg :
      (a : D)
      → (pos_part (value (double.neg a)) ≡ neg_part (value a))
        × (neg_part (value (double.neg a)) ≡ pos_part (value a))
  pub value_abs : (a : D) → value (double.abs a) ≡ pos (pos_part (value a) + neg_part (value a))
  pub equal_iff : (a b : D) → (double.equal a b ≡ true) ↔ (value a ≡ value b)
  pub in_range : (a : D) → double.too_large a ≡ false
  pub nearest :
      (a : D)
      → (pos_part (double.iround a) ≡ (pos_part (value a) + 500) / 1000)
        × (neg_part (double.iround a) ≡ (neg_part (value a) + 500) / 1000)
