-- ===== src/Exec/Compile/Integers.antt =====
-- Integer arithmetic of compiled expressions (internal/exec/expr.go).
use native.Mathlib.Nat.{div-add-mod, mul-zero, div-le_self}
use lightsql.Common.{
  ℕ, zero, suc, ◌+◌, ◌*◌, ◌/◌, ◌%◌, ◌^◌, ◌<◌, ◌≤◌, ◌≡◌, refl, ap, true, false, ◌&&◌, ok, err,
  division_by_zero, arith, ◌⊎◌, inl, inr, Bool-cases,
}
use lightsql.Common.Int.{ℤ, pos, negsuc, ◌+ℤ◌, ◌*ℤ◌, neg_of, mag, quo, rem, ℤ_eq}
use lightsql.Types.Word.{is_int64}
use lightsql.Types.Overflow.{wrap, min_int64}
use lightsql.Exec.Eval.{Calls, int_arith, int_value, ArithOp}
use lightsql.Exec.Eval

wrap-is_int64 : (z : ℤ) → is_int64 z ≡ true → wrap z ≡ z
unfolding wrap
wrap-is_int64 (pos n) h = ground arith
wrap-is_int64 (negsuc n) h = ground arith

neg_of-minus : (b q r a : ℕ) → suc b * q + r ≡ a → pos a ≡ negsuc b *ℤ neg_of q +ℤ pos r
unfolding ◌*ℤ◌ ◌+ℤ◌
neg_of-minus b zero r a e = ground (arith, mul-zero (suc b))
neg_of-minus b (suc q) r a e = ground arith

pos-neg_of : (b q r a : ℕ) → b * q + r ≡ suc a → negsuc a ≡ pos b *ℤ neg_of q +ℤ neg_of r
unfolding ◌*ℤ◌ ◌+ℤ◌
pos-neg_of b zero r a e = ground (arith, mul-zero b)
pos-neg_of b (suc q) r a e = ground arith

minus-neg_of : (b q r a : ℕ) → suc b * q + r ≡ suc a → negsuc a ≡ negsuc b *ℤ pos q +ℤ neg_of r
unfolding ◌*ℤ◌ ◌+ℤ◌
minus-neg_of b q r a e = ground arith

-- The quotient times the divisor, and the remainder, give the dividend.
quo-rem : (a b : ℤ) → a ≡ b *ℤ quo a b +ℤ rem a b
unfolding quo rem
quo-rem (pos a) (pos b) = unfold ◌*ℤ◌ ◌+ℤ◌ in ground (arith, div-add-mod a b)
quo-rem (pos a) (negsuc b) = neg_of-minus b (a / suc b) (a % suc b) a (div-add-mod a (suc b))
quo-rem (negsuc a) (pos b) = pos-neg_of b (suc a / b) (suc a % b) a (div-add-mod (suc a) b)
quo-rem (negsuc a) (negsuc b) =
    minus-neg_of b (suc a / suc b) (suc a % suc b) a (div-add-mod (suc a) (suc b))

rem_less : (a b : ℤ) → ℤ_eq b (pos 0) ≡ false → mag (rem a b) < mag b
unfolding rem
rem_less (pos a) (pos b) h = ground arith
rem_less (pos a) (negsuc b) h = omega arith
rem_less (negsuc a) (pos b) h = ground arith
rem_less (negsuc a) (negsuc b) h = ground arith

neg_of-is_int64 : (n : ℕ) → n ≤ 2 ^ 63 → is_int64 (neg_of n) ≡ true
neg_of-is_int64 n h = ground arith

rem-is_int64 : (a b : ℤ) → is_int64 b ≡ true → ℤ_eq b (pos 0) ≡ false → is_int64 (rem a b) ≡ true
unfolding rem
rem-is_int64 (pos a) (pos b) hb h = ground arith
rem-is_int64 (pos a) (negsuc b) hb h = ground arith
rem-is_int64 (negsuc a) (pos b) hb h = ground arith
rem-is_int64 (negsuc a) (negsuc b) hb h = ground arith

quo-is_int64 :
    (a b : ℤ)
    → is_int64 a ≡ true
    → ℤ_eq b (pos 0) ≡ false
    → ℤ_eq a min_int64 && ℤ_eq b (negsuc 0) ≡ false
    → is_int64 (quo a b) ≡ true
unfolding quo
quo-is_int64 (pos a) (pos b) ha h over = ground (arith, div-le_self a b)
quo-is_int64 (pos a) (negsuc b) ha h over =
    neg_of-is_int64 (a / suc b) (ground (arith, div-le_self a (suc b)))
quo-is_int64 (negsuc a) (pos b) ha h over =
    neg_of-is_int64 (suc a / b) (ground (arith, div-le_self (suc a) b))
quo-is_int64 (negsuc a) (negsuc zero) ha h over = ground arith
quo-is_int64 (negsuc a) (negsuc (suc b)) ha h over = ground arith

module _ (calls : Calls) where
  -- Division and remainder of int64 operands, the divisor not zero, and not the least int64 by -1: they
  -- give an int64 quotient and an int64 remainder that together make the dividend again, and the
  -- remainder is smaller than the divisor. For a divisor of zero both report division_by_zero.
  pub int_division :
      (a b : ℤ)
      → is_int64 a ≡ true
      → is_int64 b ≡ true
      → ℤ_eq a min_int64 && ℤ_eq b (negsuc 0) ≡ false
      → ((ℤ_eq b (pos 0) ≡ true)
          × (int_arith calls Eval.div a b ≡ err division_by_zero)
          × (int_arith calls Eval.modulo a b ≡ err division_by_zero))
        ⊎ ((q : ℤ) × (r : ℤ) × (int_arith calls Eval.div a b ≡ ok (int_value q))
            × (int_arith calls Eval.modulo a b ≡ ok (int_value r))
            × (is_int64 q ≡ true)
            × (is_int64 r ≡ true)
            × (a ≡ b *ℤ q +ℤ r)
            × (mag r < mag b))
  unfolding int_arith
  int_division a b ha hb over = elim (Bool-cases (ℤ_eq b (pos 0))) [
    | inl is_zero ↦ inl (is_zero, rw (int_arith, is_zero) refl, rw (int_arith, is_zero) refl)
    | inr given ↦
        let hq = quo-is_int64 a b ha given over in
        let hr = rem-is_int64 a b hb given in
        inr (
          quo a b,
          rem a b,
          rw (int_arith, given) (ap (λ z. ok (int_value z)) (wrap-is_int64 (quo a b) hq)),
          rw (int_arith, given) (ap (λ z. ok (int_value z)) (wrap-is_int64 (rem a b) hr)),
          hq,
          hr,
          quo-rem a b,
          rem_less a b given,
        )
  ]
