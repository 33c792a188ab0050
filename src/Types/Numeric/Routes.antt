-- ===== src/Types/Numeric/Routes.antt =====
-- Which path the arithmetic of Values takes, and what the fast one works on.
use native.Mathlib.Nat.{mod-le}
use mathlib.Core.Path.{ap₂}
use lightsql.Common.{
  ℕ, suc, ◌-◌, ◌^◌, ◌<◌, ◌≤◌, ◌≡◌, sym, ◌∙◌, true, false, ◌&&◌, Option, none, some, if◌then◌else◌,
  max, arith, Bool-cases, Option-cases, inl, inr,
}
use lightsql.Common.Int.{ℤ, pos, negsuc, ◌+ℤ◌, ◌-ℤ◌, ◌*ℤ◌, neg_ℤ, rem, ℤ_eq, mag}
use lightsql.Types.Word.{is_int64}
use lightsql.Types.Overflow.{wrap, min_int64, scale_no_overflow, scale_no_overflow_lem}
use lightsql.Types.Decimal
use lightsql.Types.Decimal.{Decimal, rescale, cmp_ℤ, align}
use lightsql.Types.Decimal.Order.{rescale_lem, zero_product, pos_ten}
use lightsql.Types.Numeric.{numeric, small_value, align_ints, align_small, general, max_small_scale}
use lightsql.Types.Numeric.Encoding.{fits, small_decimal-numeric, numeric-small, as_decimal-numeric}

-- What the fast path works on: the digits at the common scale.
pub record Aligned (a b : Decimal) (x y : ℤ) (s : ℕ) : Type 0 where
  pub scale : s ≡ max a.scale b.scale
  pub left : x ≡ rescale a (max a.scale b.scale)
  pub right : y ≡ rescale b (max a.scale b.scale)
  pub left_fits : is_int64 x ≡ true
  pub right_fits : is_int64 y ≡ true
  pub small : s ≤ max_small_scale

align_ints-Aligned :
    (a b : Decimal) (x y : ℤ) (s : ℕ)
    → fits a ≡ true
    → fits b ≡ true
    → align_ints a.unscaled a.scale b.unscaled b.scale ≡ some (x, y, s)
    → Aligned a b x y s
unfolding align_ints
align_ints-Aligned a b x y s fa fb h =
    elim (Option-cases (scale_no_overflow a.unscaled (m - a.scale))) [
      | inl over ↦
          let bad : ◌≡◌ {A = Option (ℤ × ℤ × ℕ)} none (some (x, y, s)) =
            rw (over, align_ints) at h in
          cc
      | inr (x', at) ↦ elim (Option-cases (scale_no_overflow b.unscaled (m - b.scale))) [
        | inl over ↦
            let bad : ◌≡◌ {A = Option (ℤ × ℤ × ℕ)} none (some (x, y, s)) =
              rw (at, over, align_ints) at h in
            cc
        | inr (y', at') ↦
            let done : ◌≡◌ {A = Option (ℤ × ℤ × ℕ)} (some (x', y', m)) (some (x, y, s)) =
              rw (at, at', align_ints) at h in
            let (ex, hx) = scale_no_overflow_lem a.unscaled (m - a.scale) x' (ground arith) at in
            let (ey, hy) = scale_no_overflow_lem b.unscaled (m - b.scale) y' (ground arith) at' in
            let rx = ex ∙ sym (rescale_lem a m (omega arith)) in
            let ry = ey ∙ sym (rescale_lem b m (omega arith)) in
            record {
              scale = cc;
              left = cc;
              right = cc;
              left_fits = cc;
              right_fits = cc;
              small = ground arith;
            }
      ]
    ]
  where
    m : ℕ
    m = max a.scale b.scale

-- The general path, on decimals that were stored.
pub general-numeric {ℓ} :
    {A : Type ℓ} (f : Decimal → Decimal → A) (a b : Decimal)
    → a.scale < 2 ^ 31
    → b.scale < 2 ^ 31
    → general f (numeric a) (numeric b) ≡ some (f a b)
unfolding general
general-numeric f a b ha hb = rw (as_decimal-numeric a ha, as_decimal-numeric b hb, general)

-- Which path an operation takes on two stored decimals.
pub data Route (a b : Decimal) : Type 0 where
  slow : align_small (numeric a) (numeric b) ≡ none → Route a b
  fast :
      (x y : ℤ) (s : ℕ)
      → align_small (numeric a) (numeric b) ≡ some (x, y, s)
      → Aligned a b x y s
      → Route a b

align_small-numeric :
    (a b : Decimal)
    → align_small (numeric a) (numeric b)
      ≡ (if fits a && fits b then align_ints a.unscaled a.scale b.unscaled b.scale else none)
unfolding align_small
align_small-numeric a b = ground (arith, small_decimal-numeric a, small_decimal-numeric b)

pub route : (a b : Decimal) → Route a b
route a b = elim (Bool-cases (fits a && fits b)) [
  | inr big ↦ Route.slow (align_small-numeric a b ∙ rw big)
  | inl small ↦ elim (Option-cases (align_ints a.unscaled a.scale b.unscaled b.scale)) [
    | inl over ↦ Route.slow (align_small-numeric a b ∙ rw (small, over))
    | inr ((x, y, s), at) ↦
        Route.fast x y s (align_small-numeric a b ∙ rw (small, at))
          (align_ints-Aligned a b x y s (ground arith) (ground arith) at)
  ]
]

-- A result that fits is stored inline.
pub inline :
    (d : Decimal) (u : ℤ) (s : ℕ)
    → d.unscaled ≡ u
    → d.scale ≡ s
    → is_int64 u ≡ true
    → s ≤ max_small_scale
    → small_value u s ≡ numeric d
inline d u s eu es hu hs = ap₂ small_value (sym eu) (sym es) ∙ sym (numeric-small d (ground arith))

pub wrap-neg :
    (y : ℤ)
    → is_int64 y ≡ true
    → ℤ_eq y min_int64 ≡ false
    → (wrap (neg_ℤ y) ≡ neg_ℤ y) × (is_int64 (neg_ℤ y) ≡ true)
unfolding wrap
wrap-neg (pos n) h l = (ground arith, ground arith)
wrap-neg (negsuc n) h l = (ground arith, ground arith)

pub +ℤ-neg : (x y : ℤ) → x +ℤ neg_ℤ y ≡ x -ℤ y
unfolding ◌+ℤ◌ ◌-ℤ◌
+ℤ-neg x (pos n) = ground arith
+ℤ-neg x (negsuc n) = ground arith

pub rem_fits : (x y : ℤ) → is_int64 x ≡ true → is_int64 (rem x y) ≡ true
unfolding rem
rem_fits (pos n) y h = ground (arith, mod-le n (mag y))
rem_fits (negsuc n) y h = ground (arith, mod-le (suc n) (mag y))

pub zero_rescaled :
    (b : Decimal) (s : ℕ) → b.scale ≤ s → ℤ_eq (rescale b s) (pos 0) ≡ Decimal.is_zero b
unfolding Decimal.is_zero
zero_rescaled b s h = rw (rescale_lem b s h) (by_sign b.unscaled)
  where
    by_sign : (u : ℤ) → ℤ_eq (u *ℤ pos (10 ^ (s - b.scale))) (pos 0) ≡ ℤ_eq u (pos 0)
    by_sign u = zero_product u (10 ^ (s - b.scale)) (pos_ten (s - b.scale))
