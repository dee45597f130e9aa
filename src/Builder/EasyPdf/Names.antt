-- ===== src/Builder/EasyPdf/Names.antt =====
-- The names of parts, `"p1_"+name` and `name+"_sigma2"`, differ from one another.
use Prim.Native.String.{◌++◌, count}
use text.Mathlib.TextLemmas.{append_cancel_left, append_cancel_right, length-append}
use doo_fit.Base.{ℕ, suc, String, false, str_eq, eq_iff, ◌≡◌, ◌≢◌, ap, arith, Bool-cases, inl, inr}

str_ne : (s t : String) → s ≢ t → str_eq s t ≡ false
str_ne s t h = elim (Bool-cases (str_eq s t)) [ inl e ↦ absurd (h ((eq_iff s t).0 e)) | inr e ↦ e ]

pub prefix_ne : (a b n : String) → str_eq a b ≡ false → str_eq (a ++ n) (b ++ n) ≡ false
prefix_ne a b n h =
    str_ne (a ++ n) (b ++ n) (λ e. cc ((eq_iff a b).1 (append_cancel_right a b n e), h))

pub suffix_ne : (n a b : String) → str_eq a b ≡ false → str_eq (n ++ a) (n ++ b) ≡ false
suffix_ne n a b h =
    str_ne (n ++ a) (n ++ b) (λ e. cc ((eq_iff a b).1 (append_cancel_left n a b e), h))

pub prefix_ne_self : (a n : String) {k : ℕ} → count a ≡ suc k → str_eq (a ++ n) n ≡ false
prefix_ne_self a n h = str_ne _ _ (λ e. omega (arith, ap count e, length-append a n))
