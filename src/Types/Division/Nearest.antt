-- ===== src/Types/Division/Nearest.antt =====
-- The quotient is correctly rounded, and the scale for which Div panics.
use native.Mathlib.Nat.{div-add-mod, mod-lt, div-mul-le_self, mul-le-mul_right}
use lightsql.Common.{
  ℕ, zero, suc, ◌+◌, ◌-◌, ◌*◌, ◌/◌, ◌^◌, ◌≤◌, ◌<◌, ◌≡◌, refl, sym, ap, ◌∙◌, false, arith, none,
  some, min, ok, lt→ltb,
}
use lightsql.Common.Int.{ℤ, pos, negsuc, ◌*ℤ◌, neg_of, quo, mag, ℤ_eq}
use lightsql.Types.Decimal.Order.{pos_ten}
use lightsql.Types.Decimal.{Decimal, is_zero, round}
use lightsql.Types.Decimal.Rounding.{with_sign, round_nearest}
use lightsql.Types.Division.{div, div_at, div_scale, long_quotient}

-- The digit that is computed beyond the scale and rounded off makes the rounding correct, whatever was
-- cut off behind it.
rounded_once :
    (n b t q : ℕ)
    → t * b ≤ n
    → n < (t + 1) * b
    → q * 10 * 2 ≤ t * 2 + 10
    → t * 2 + 10 < (q + 1) * 10 * 2
    → (q * 10 * b * 2 ≤ n * 2 + 10 * b) × (n * 2 + 10 * b < (q + 1) * 10 * b * 2)
rounded_once n b t q lo hi low high =
    let lo' = mul-le-mul_right b low in
    let hi' = mul-le-mul_right b (two_more t q high) in (omega (arith, lo'), omega (arith, hi'))
  where
    two_more : (t q : ℕ) → t * 2 + 10 < (q + 1) * 10 * 2 → t * 2 + 12 ≤ (q + 1) * 10 * 2
    two_more t q h = omega arith

mag-quo : (x y : ℤ) → mag (quo x y) ≡ mag x / mag y
unfolding quo
mag-quo (pos a) (pos b) = refl
mag-quo (pos a) (negsuc b) = ground arith
mag-quo (negsuc a) (pos b) = ground arith
mag-quo (negsuc a) (negsuc b) = refl

mag-times : (x : ℤ) (n : ℕ) → mag (x *ℤ pos n) ≡ mag x * n
unfolding ◌*ℤ◌
mag-times (pos a) n = refl
mag-times (negsuc a) n = ground arith

pub div_scale-at_most : (a b : Decimal) → div_scale a b ≤ 1000
unfolding div_scale
div_scale-at_most a b = omega arith

div-div_at : (a b : Decimal) → div a b ≡ div_at (div_scale a b) a b
unfolding div
div-div_at a b = refl

div_at-panics :
    (rscale : ℕ) (a b : Decimal)
    → is_zero a ≡ false
    → is_zero b ≡ false
    → rscale + b.scale + 1 < a.scale
    → div_at rscale a b ≡ none
unfolding div_at
div_at-panics rscale a b ha hb h = rw (div_at, hb, ha, lt→ltb (rscale + b.scale + 1) a.scale h) refl

-- Div panics where neither operand is zero and the dividend has so many more places than the divisor,
-- more than 1001, that the greatest scale which it chooses, 1000, is too small.
pub div_panics :
    (a b : Decimal)
    → is_zero a ≡ false
    → is_zero b ≡ false
    → b.scale + 1001 < a.scale
    → div a b ≡ none
div_panics a b ha hb h =
    div-div_at a b ∙ div_at-panics (div_scale a b) a b ha hb (omega (arith, div_scale-at_most a b))

with_sign-neg_of : (t m : ℕ) → (t ≡ 0 → m ≡ 0) → with_sign (neg_of t) m ≡ neg_of m
with_sign-neg_of t m h = ground arith

neg_of-suc : (k : ℕ) → neg_of (suc k) ≡ negsuc k
neg_of-suc k = ground arith

quo-neg_of :
    (k b : ℕ)
    → 0 < k
    → (quo (neg_of k) (pos b) ≡ neg_of (k / b)) × (quo (neg_of k) (negsuc b) ≡ pos (k / suc b))
unfolding quo
quo-neg_of zero b h = ground arith
quo-neg_of (suc k) b h =
    (ap (λ z. quo z (pos b)) (neg_of-suc k), ap (λ z. quo z (negsuc b)) (neg_of-suc k))

positive_product : (a n : ℕ) → 0 < a → 0 < n → 0 < a * n
positive_product a n h k = grind arith

-- The sign of a quotient is that of the product, unless it is zero.
sign_of_quotient :
    (x y : ℤ) (n m : ℕ)
    → (mag (quo (x *ℤ pos n) y) ≡ 0 → m ≡ 0)
    → 0 < n
    → ℤ_eq x (pos 0) ≡ false
    → ℤ_eq y (pos 0) ≡ false
    → with_sign (quo (x *ℤ pos n) y) m ≡ with_sign (x *ℤ y) m
unfolding ◌*ℤ◌ quo
sign_of_quotient (pos a) (pos b) n m h hn hx hy = refl
sign_of_quotient (pos a) (negsuc b) n m h hn hx hy =
    let whole = positive_product a (suc b) (ground arith) (omega arith) in
    with_sign-neg_of (a * n / suc b) m (λ e. h (ground (arith, e)))
    ∙ sym (with_sign-neg_of (a * suc b) m (λ e. absurd (omega (arith, e, whole))))
sign_of_quotient (negsuc a) (pos b) n m h hn hx hy =
    let whole = positive_product (suc a) b (omega arith) (ground arith) in
    let k = positive_product (suc a) n (omega arith) hn in
    let e = (quo-neg_of (suc a * n) b k).0 in
    ap (λ z. with_sign z m) e
    ∙ with_sign-neg_of (suc a * n / b) m (λ z. h (ap mag e ∙ ground (arith, z)))
    ∙ sym (with_sign-neg_of (suc a * b) m (λ z. absurd (omega (arith, z, whole))))
sign_of_quotient (negsuc a) (negsuc b) n m h hn hx hy =
    let k = positive_product (suc a) n (omega arith) hn in
    ap (λ z. with_sign z m) ((quo-neg_of (suc a * n) b k).1)

mag-zero : (z : ℤ) → ℤ_eq z (pos 0) ≡ false → 0 < mag z
mag-zero (pos n) h = ground arith
mag-zero (negsuc n) h = omega arith

div_at-round :
    (rscale : ℕ) (a b : Decimal)
    → is_zero a ≡ false
    → is_zero b ≡ false
    → a.scale ≤ rscale + b.scale + 1
    → div_at rscale a b ≡ some (ok (round (long_quotient a b rscale) rscale))
unfolding div_at
div_at-round rscale a b ha hb h = rw (div_at, hb, ha) (ground (arith, h))

-- What is divided: the digits of the dividend, moved one place further than the scale asks for.
abbrev pub dividend : ℕ → Decimal → Decimal → ℕ
dividend rscale a b = mag a.unscaled * 10 ^ (rscale + b.scale + 1 - a.scale)

one_place : (r : ℕ) → 10 ^ (r + 1 - r) ≡ 10
one_place r = ap (λ (n : ℕ). 10 ^ n) (one r)
  where
    one : (r : ℕ) → r + 1 - r ≡ 1
    one r = omega arith

mag-long_quotient :
    (rscale : ℕ) (a b : Decimal)
    → mag (long_quotient a b rscale).unscaled ≡ dividend rscale a b / mag b.unscaled
mag-long_quotient rscale a b =
    let p = 10 ^ (rscale + b.scale + 1 - a.scale) in
    mag-quo (a.unscaled *ℤ pos p) b.unscaled
    ∙ ap (λ (n : ℕ). n / mag b.unscaled) (mag-times a.unscaled p)

quotient_bounds : (n b : ℕ) → 0 < b → (n / b * b ≤ n) × (n < (n / b + 1) * b)
quotient_bounds n b h = (div-mul-le_self n b, omega (arith, div-add-mod n b, mod-lt n h))

-- The quotient is correctly rounded: at the scale `rscale` it is the decimal nearest to the true quotient,
-- away from zero where two are equally near, and it has the sign of the product.
pub quotient_nearest :
    (rscale : ℕ) (a b : Decimal)
    → is_zero a ≡ false
    → is_zero b ≡ false
    → let q = (round (long_quotient a b rscale) rscale).unscaled in
      (mag q * 10 * mag b.unscaled * 2 ≤ dividend rscale a b * 2 + 10 * mag b.unscaled)
      × (dividend rscale a b * 2 + 10 * mag b.unscaled < (mag q + 1) * 10 * mag b.unscaled * 2)
      × (q ≡ with_sign (a.unscaled *ℤ b.unscaled) (mag q))
unfolding is_zero
quotient_nearest rscale a b ha hb =
    let l = long_quotient a b rscale in
    let q = (round l rscale).unscaled in
    let raw = round_nearest l rscale (omega arith) in
    let ten = one_place rscale in
    let n = dividend rscale a b in
    let t = mag l.unscaled in
    let te = mag-long_quotient rscale a b in
    let (lo, hi) = quotient_bounds n (mag b.unscaled) (mag-zero b.unscaled hb) in
    let low : mag q * 10 * 2 ≤ t * 2 + 10 =
      omega (arith, raw.0, ten, ap (λ (d : ℕ). mag q * d) ten) in
    let high : t * 2 + 10 < (mag q + 1) * 10 * 2 =
      omega (arith, raw.1, ten, ap (λ (d : ℕ). mag q * d) ten) in
    let once = rounded_once n (mag b.unscaled) t (mag q) (rw te lo) (rw te hi) low high in
    (
      once.0,
      once.1,
      raw.2
          ∙ sign_of_quotient a.unscaled b.unscaled (10 ^ (rscale + b.scale + 1 - a.scale)) (mag q)
              (λ z. omega (arith, z, low)) (pos_ten (rscale + b.scale + 1 - a.scale)) ha hb,
    )

div_scale-at_least : (a b : Decimal) → min a.scale 1000 ≤ div_scale a b
unfolding div_scale
div_scale-at_least a b = omega arith

scale-round : (rscale : ℕ) (d : Decimal) → (round d rscale).scale ≡ rscale
unfolding round
scale-round rscale d = ground arith

-- Where neither operand is zero and the dividend has at most 1001 places more than the divisor, Div returns
-- the decimal of the scale that it chooses which is nearest to the true quotient, away from zero where two
-- are equally near, and on the same side of zero.
pub div_nearest :
    (a b : Decimal)
    → is_zero a ≡ false
    → is_zero b ≡ false
    → a.scale ≤ b.scale + 1001
    → let s = div_scale a b in
      (q : Decimal) × (div a b ≡ some (ok q))
      × (q.scale ≡ s)
      × (mag q.unscaled * 10 * mag b.unscaled * 2 ≤ dividend s a b * 2 + 10 * mag b.unscaled)
      × (dividend s a b * 2 + 10 * mag b.unscaled < (mag q.unscaled + 1) * 10 * mag b.unscaled * 2)
      × (q.unscaled ≡ with_sign (a.unscaled *ℤ b.unscaled) (mag q.unscaled))
div_nearest a b ha hb h =
    let s = div_scale a b in
    let near = quotient_nearest s a b ha hb in
    (
      round (long_quotient a b s) s,
      div-div_at a b ∙ div_at-round s a b ha hb (omega (arith, h, div_scale-at_least a b)),
      scale-round s (long_quotient a b s),
      near.0,
      near.1,
      near.2,
    )
