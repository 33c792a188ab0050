-- ===== src/Types/Decimal/Order.antt =====
-- Decimals compare and add by their values: at any scale that is wide enough for both.
use Prim.Native.Nat.{compare, gt}
use native.Mathlib.Nat.{pow-succ', mul_assoc, add-mul, zero-mul, one-mul, zero-add, suc-add}
use lightsql.Common.{
  ℕ, zero, suc, ◌+◌, ◌-◌, ◌*◌, ◌^◌, ◌≤◌, ◌<◌, ◌≡◌, ◌≢◌, refl, sym, ap, ◌∙◌, arith, ◌==◌, max,
  Bool-cases, inl, inr,
}
use lightsql.Common.Int.{
  ℤ, pos, negsuc, ◌+ℤ◌, ◌-ℤ◌, ◌*ℤ◌, pos_part, neg_part, *ℤ-pos_assoc, *ℤ-one, +ℤ_parts, -ℤ_parts,
  eq_of_parts, ℤ_eq,
}
use mathlib.Core.Path.{ap₂}
use lightsql.Types.Decimal.{Decimal, rescale, align, cmp, cmp_ℤ, add, sub}

-- The value of a decimal in units of the digit `scale` places after the point, for a scale that is
-- at least its own.
abbrev pub at_scale : ℕ → Decimal → ℤ
at_scale scale d = d.unscaled *ℤ pos (10 ^ (scale - d.scale))

pub rescale_lem : (d : Decimal) (scale : ℕ) → d.scale ≤ scale → rescale d scale ≡ at_scale scale d
unfolding rescale
rescale_lem d scale h = elim (Bool-cases (scale == d.scale)) [
  | inl same ↦ rw same (
      sym (*ℤ-one d.unscaled)
      ∙ ap (λ n. d.unscaled *ℤ pos n) (pow_zero (scale - d.scale) (ground arith)))
  | inr other ↦ rw other
]
  where
    pow_zero : (n : ℕ) → n ≡ 0 → 1 ≡ 10 ^ n
    pow_zero n e = rw e

pow_add : (a b : ℕ) → 10 ^ a * 10 ^ b ≡ 10 ^ (a + b)
pow_add zero b = rw (zero-add, one-mul)
pow_add (suc a) b =
    rw (suc-add, pow-succ' 10 a, pow-succ' 10 (a + b))
      (mul_assoc 10 (10 ^ a) (10 ^ b) ∙ ap (λ n. 10 * n) (pow_add a b))

pub at_scale-widen :
    (d : Decimal) (s t : ℕ)
    → d.scale ≤ s
    → s ≤ t
    → at_scale s d *ℤ pos (10 ^ (t - s)) ≡ at_scale t d
at_scale-widen d s t h k =
    *ℤ-pos_assoc d.unscaled (10 ^ (s - d.scale)) (10 ^ (t - s))
    ∙ ap (λ n. d.unscaled *ℤ pos n) (pow_add (s - d.scale) (t - s) ∙ ap (λ n. 10 ^ n) (omega arith))

positive_product : (n p : ℕ) → 0 < p → 0 < suc n * p
positive_product n p h = grind arith

mul_parts :
    (x : ℤ) (p : ℕ)
    → 0 < p
    → (pos_part (x *ℤ pos p) ≡ pos_part x * p) × (neg_part (x *ℤ pos p) ≡ neg_part x * p)
unfolding ◌*ℤ◌
mul_parts (pos n) p h = (refl, sym (zero-mul p))
mul_parts (negsuc n) p h = ground (arith, zero-mul p, positive_product n p)

mul-lt : (m n p : ℕ) → 0 < p → m < n → m * p < n * p
mul-lt m n p h k = grind arith

compare-mul : (m n p : ℕ) → 0 < p → compare (m * p) (n * p) ≡ compare m n
compare-mul m n p h = ground (arith, mul-lt m n p, mul-lt n m p)

pub pos_ten : (n : ℕ) → 0 < 10 ^ n
pos_ten zero = omega arith
pos_ten (suc n) = rw (pow-succ' 10 n) (omega (arith, pos_ten n))

cmp_ℤ-mul : (x y : ℤ) (p : ℕ) → 0 < p → cmp_ℤ (x *ℤ pos p) (y *ℤ pos p) ≡ cmp_ℤ x y
cmp_ℤ-mul x y p h =
    let (px, nx) = mul_parts x p h in
    let (py, ny) = mul_parts y p h in
    rw (px, nx, py, ny, ← add-mul, ← add-mul)
      (compare-mul (pos_part x + neg_part y) (pos_part y + neg_part x) p h)

+ℤ-mul : (x y : ℤ) (p : ℕ) → 0 < p → (x +ℤ y) *ℤ pos p ≡ x *ℤ pos p +ℤ y *ℤ pos p
+ℤ-mul x y p h = eq_of_parts _ _ (
    omega (
      arith,
      mul_parts x p h,
      mul_parts y p h,
      mul_parts (x +ℤ y) p h,
      +ℤ_parts (x *ℤ pos p) (y *ℤ pos p),
      ap (λ (t : ℕ). t * p) (+ℤ_parts x y),
    ))

-ℤ-mul : (x y : ℤ) (p : ℕ) → 0 < p → (x -ℤ y) *ℤ pos p ≡ x *ℤ pos p -ℤ y *ℤ pos p
-ℤ-mul x y p h = eq_of_parts _ _ (
    omega (
      arith,
      mul_parts x p h,
      mul_parts y p h,
      mul_parts (x -ℤ y) p h,
      -ℤ_parts (x *ℤ pos p) (y *ℤ pos p),
      ap (λ (t : ℕ). t * p) (-ℤ_parts x y),
    ))

abbrev common : Decimal → Decimal → ℕ
common a b = max a.scale b.scale

-- The digits of an operand at the common scale, widened further.
aligned :
    (d : Decimal) (s t : ℕ) → d.scale ≤ s → s ≤ t → rescale d s *ℤ pos (10 ^ (t - s)) ≡ at_scale t d
aligned d s t h k = rw (rescale_lem d s h) (at_scale-widen d s t h k)

cmp_unfolded : (a b : Decimal) → cmp a b ≡ cmp_ℤ (rescale a (common a b)) (rescale b (common a b))
unfolding cmp align
cmp_unfolded a b = refl

-- Cmp compares the values: at every scale that is at least both operands' scales.
pub cmp-at_scale :
    (a b : Decimal) (t : ℕ)
    → a.scale ≤ t
    → b.scale ≤ t
    → cmp a b ≡ cmp_ℤ (at_scale t a) (at_scale t b)
cmp-at_scale a b t ha hb =
    cmp_unfolded a b
    ∙ sym (
        cmp_ℤ-mul (rescale a (common a b)) (rescale b (common a b)) (10 ^ (t - common a b))
          (pos_ten (t - common a b)))
    ∙ ap₂ cmp_ℤ (aligned a (common a b) t (omega arith) (omega arith))
        (aligned b (common a b) t (omega arith) (omega arith))

cmp_ℤ-trans : (x y z : ℤ) → cmp_ℤ x y ≢ gt → cmp_ℤ y z ≢ gt → cmp_ℤ x z ≢ gt
cmp_ℤ-trans x y z h k = ground arith

-- Cmp orders decimals of any scales transitively.
pub cmp_trans : (a b c : Decimal) → cmp a b ≢ gt → cmp b c ≢ gt → cmp a c ≢ gt
cmp_trans a b c h k =
    let t = max a.scale (max b.scale c.scale) in
    let ab = cmp-at_scale a b t (omega arith) (omega arith) in
    let bc = cmp-at_scale b c t (omega arith) (omega arith) in
    let ac = cmp-at_scale a c t (omega arith) (omega arith) in
    λ e.
      cmp_ℤ-trans (at_scale t a) (at_scale t b) (at_scale t c) (λ x. h (ab ∙ x)) (λ x. k (bc ∙ x))
        (sym ac ∙ e)

add_unfolded :
    (a b : Decimal) → (add a b).unscaled ≡ rescale a (common a b) +ℤ rescale b (common a b)
unfolding add align
add_unfolded a b = refl

sub_unfolded :
    (a b : Decimal) → (sub a b).unscaled ≡ rescale a (common a b) -ℤ rescale b (common a b)
unfolding sub align
sub_unfolded a b = refl

-- Add and Sub are exact: at every scale that is wide enough, the value of the result is the sum,
-- or the difference, of the values.
pub add-at_scale :
    (a b : Decimal) (t : ℕ)
    → a.scale ≤ t
    → b.scale ≤ t
    → (at_scale t (add a b) ≡ at_scale t a +ℤ at_scale t b)
      × (at_scale t (sub a b) ≡ at_scale t a -ℤ at_scale t b)
unfolding add align sub
add-at_scale a b t ha hb =
    let s = common a b in
    let p = 10 ^ (t - s) in
    let xa = aligned a s t (omega arith) (omega arith) in
    let xb = aligned b s t (omega arith) (omega arith) in
    (
      ap (λ u. u *ℤ pos p) (add_unfolded a b)
          ∙ +ℤ-mul (rescale a s) (rescale b s) p (pos_ten (t - s))
          ∙ ap₂ (λ x y. x +ℤ y) xa xb,
      ap (λ u. u *ℤ pos p) (sub_unfolded a b)
          ∙ -ℤ-mul (rescale a s) (rescale b s) p (pos_ten (t - s))
          ∙ ap₂ (λ x y. x -ℤ y) xa xb,
    )

pub zero_product : (x : ℤ) (p : ℕ) → 0 < p → ℤ_eq (x *ℤ pos p) (pos 0) ≡ ℤ_eq x (pos 0)
unfolding ◌*ℤ◌
zero_product (pos zero) p h = ground (arith, zero-mul p)
zero_product (pos (suc n)) p h = ground (arith, positive_product n p)
zero_product (negsuc n) p h = ground (arith, positive_product n p)
