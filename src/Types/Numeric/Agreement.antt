-- ===== src/Types/Numeric/Agreement.antt =====
-- Arithmetic on the two representations agrees with arithmetic on decimals, overflow included.
use Prim.Native.Nat.{Ordering}
use mathlib.Core.Path.{ap₂}
use mathlib.Core.Option
use lightsql.Common.{
  ℕ, ◌+◌, ◌^◌, ◌<◌, ◌≡◌, refl, sym, ap, ◌∙◌, true, false, Option, none, some, leb, if◌then◌else◌,
  max, arith, Bool-cases, Option-cases, inl, inr, Result, ok, err, division_by_zero,
}
use lightsql.Common.Int.{ℤ, pos, neg_ℤ, rem, ℤ_eq}
use lightsql.Types.Overflow.{
  wrap, min_int64, add_no_overflow, mul_no_overflow, add_no_overflow_lem, mul_no_overflow_exact,
}
use lightsql.Types.Value.{Value}
use lightsql.Types.Decimal
use lightsql.Types.Decimal.{Decimal, rescale, cmp_ℤ, align}
use lightsql.Types.Numeric.{
  numeric, small_decimal, small_value, add_numeric, sub_numeric, mul_numeric, mul_small,
  mod_numeric, neg_numeric, cmp_numeric, max_small_scale, as_decimal,
}
use lightsql.Types.Numeric.Encoding.{fits, small_decimal-numeric, as_decimal-numeric}
use lightsql.Types.Numeric.Routes.{
  Aligned, Route, general-numeric, route, inline, wrap-neg, +ℤ-neg, rem_fits, zero_rescaled,
}

module _ (a b : Decimal) (ha : a.scale < 2 ^ 31) (hb : b.scale < 2 ^ 31) where
  fast_add :
      (x y sum : ℤ) (s : ℕ)
      → Aligned a b x y s
      → add_no_overflow x y ≡ some sum
      → small_value sum s ≡ numeric (Decimal.add a b)
  unfolding Decimal.add align
  fast_add x y sum s al at =
      let law = add_no_overflow_lem x y al.left_fits al.right_fits in
      inline (Decimal.add a b) sum s (ground (arith, law, al.left, al.right)) (sym al.scale)
        (ground (arith, law)) al.small

  add_agrees : add_numeric (numeric a) (numeric b) ≡ some (numeric (Decimal.add a b))
  unfolding add_numeric
  add_agrees =
      let slow_add = general-numeric (λ x y. numeric (Decimal.add x y)) a b ha hb in
      elim (route a b) [
        | Route.slow e ↦ rw (e, add_numeric) slow_add
        | Route.fast x y s e al ↦ elim (Option-cases (add_no_overflow x y)) [
          | inl over ↦ rw (e, over, add_numeric) slow_add
          | inr (sum, at) ↦
              rw (e, at, add_numeric) (ap (λ (v : Value). some v) (fast_add x y sum s al at))
        ]
      ]

  fast_sub :
      (x y diff : ℤ) (s : ℕ)
      → Aligned a b x y s
      → ℤ_eq y min_int64 ≡ false
      → add_no_overflow x (wrap (neg_ℤ y)) ≡ some diff
      → small_value diff s ≡ numeric (Decimal.sub a b)
  unfolding Decimal.sub align
  fast_sub x y diff s al ne at =
      let (w, fit) = wrap-neg y al.right_fits ne in
      let law = add_no_overflow_lem x (neg_ℤ y) al.left_fits fit in
      let at' : add_no_overflow x (neg_ℤ y) ≡ some diff = rw w at at in
      inline (Decimal.sub a b) diff s (ground (arith, law, al.left, al.right, +ℤ-neg x y))
        (sym al.scale) (ground (arith, law)) al.small

  sub_agrees : sub_numeric (numeric a) (numeric b) ≡ some (numeric (Decimal.sub a b))
  unfolding sub_numeric
  sub_agrees =
      let slow_sub = general-numeric (λ x y. numeric (Decimal.sub x y)) a b ha hb in
      elim (route a b) [
        | Route.slow e ↦ rw (e, sub_numeric) slow_sub
        | Route.fast x y s e al ↦ elim (Option-cases (add_no_overflow x (wrap (neg_ℤ y)))) [
          | inl over ↦ rw (e, over, sub_numeric) slow_sub
          | inr (diff, at) ↦ elim (Bool-cases (ℤ_eq y min_int64)) [
            | inl least ↦ rw (e, at, least, sub_numeric) slow_sub
            | inr ne ↦
                rw (e, at, ne, sub_numeric)
                  (ap (λ (v : Value). some v) (fast_sub x y diff s al ne at))
          ]
        ]
      ]

  cmp_agrees : cmp_numeric (numeric a) (numeric b) ≡ some (Decimal.cmp a b)
  unfolding cmp_numeric
  cmp_agrees = elim (route a b) [
    | Route.slow e ↦ rw (e, cmp_numeric) (general-numeric Decimal.cmp a b ha hb)
    | Route.fast x y s e al ↦
        rw (e, cmp_numeric)
          (unfold Decimal.cmp align in ap (λ (v : Ordering). some v) (ap₂ cmp_ℤ al.left al.right))
  ]

  fast_mul :
      (prod : ℤ)
      → fits a ≡ true
      → fits b ≡ true
      → leb (a.scale + b.scale) max_small_scale ≡ true
      → mul_no_overflow a.unscaled b.unscaled ≡ some prod
      → small_value prod (a.scale + b.scale) ≡ numeric (Decimal.mul a b)
  unfolding Decimal.mul
  fast_mul prod fa fb low at =
      let (e, fit) =
        mul_no_overflow_exact a.unscaled b.unscaled prod (ground arith) (ground arith) at in
      inline (Decimal.mul a b) prod (a.scale + b.scale) (sym e) refl fit (ground arith)

  mul_small_agrees :
      (v : Value)
      → mul_small (small_decimal (numeric a)) (small_decimal (numeric b)) ≡ some v
      → v ≡ numeric (Decimal.mul a b)
  unfolding mul_small
  mul_small_agrees v h = ground (
    arith,
    small_decimal-numeric a,
    small_decimal-numeric b,
    fast_mul (default (mul_no_overflow a.unscaled b.unscaled)),
  )
    where
      default : Option ℤ → ℤ
      default none = pos 0
      default (some z) = z

  mul_agrees : mul_numeric (numeric a) (numeric b) ≡ some (numeric (Decimal.mul a b))
  unfolding mul_numeric
  mul_agrees =
      elim (Option-cases (mul_small (small_decimal (numeric a)) (small_decimal (numeric b)))) [
        | inl big ↦
            rw (big, mul_numeric) (general-numeric (λ x y. numeric (Decimal.mul x y)) a b ha hb)
        | inr (v, at) ↦ rw (at, mul_numeric) (ap (λ (w : Value). some w) (mul_small_agrees v at))
      ]

  fast_mod :
      (x y : ℤ) (s : ℕ) → Aligned a b x y s → small_value (rem x y) s ≡ numeric (Decimal.modulo a b)
  unfolding Decimal.modulo align
  fast_mod x y s al =
      inline (Decimal.modulo a b) (rem x y) s (sym (ap₂ rem al.left al.right)) (sym al.scale)
        (rem_fits x y al.left_fits) al.small

  abbrev mod_result : Result Value
  mod_result = if Decimal.is_zero b then err division_by_zero else ok (numeric (Decimal.modulo a b))

  mod_agrees : mod_numeric (numeric a) (numeric b) ≡ some mod_result
  unfolding mod_numeric
  mod_agrees = elim (route a b) [
    | Route.slow e ↦
        rw (e, mod_numeric)
          (general-numeric
            (λ x y.
              if Decimal.is_zero y then err division_by_zero else ok (numeric (Decimal.modulo x y)))
            a b ha hb)
    | Route.fast x y s e al ↦
        let z : ℤ_eq y (pos 0) ≡ Decimal.is_zero b =
          ap (λ t. ℤ_eq t (pos 0)) al.right ∙ zero_rescaled b (max a.scale b.scale) (omega arith) in
        rw (e, z, fast_mod x y s al, mod_numeric)
  ]

  slow_neg :
      Option.map (λ d. numeric (Decimal.neg d)) (as_decimal (numeric a))
      ≡ some (numeric (Decimal.neg a))
  slow_neg = rw (as_decimal-numeric a ha)

  fast_neg :
      fits a ≡ true
      → ℤ_eq a.unscaled min_int64 ≡ false
      → small_value (neg_ℤ a.unscaled) a.scale ≡ numeric (Decimal.neg a)
  unfolding Decimal.neg
  fast_neg fa ne =
      inline (Decimal.neg a) (neg_ℤ a.unscaled) a.scale refl refl
        ((wrap-neg a.unscaled (ground arith) ne).1) (ground arith)

  neg_agrees : neg_numeric (numeric a) ≡ some (numeric (Decimal.neg a))
  unfolding neg_numeric
  neg_agrees = ground (arith, small_decimal-numeric a, slow_neg, fast_neg)

-- Two representations, one arithmetic: on stored decimals of any size, with or without overflow of
-- the fast path, AddNumeric, SubNumeric, MulNumeric, NegNumeric, ModNumeric and cmpNumeric give what
-- Add, Sub, Mul, Neg, Mod and Cmp give, stored; ModNumeric reports a zero divisor.
pub numeric_agrees :
    (a b : Decimal)
    → a.scale < 2 ^ 31
    → b.scale < 2 ^ 31
    → (add_numeric (numeric a) (numeric b) ≡ some (numeric (Decimal.add a b)))
      × (sub_numeric (numeric a) (numeric b) ≡ some (numeric (Decimal.sub a b)))
      × (mul_numeric (numeric a) (numeric b) ≡ some (numeric (Decimal.mul a b)))
      × (neg_numeric (numeric a) ≡ some (numeric (Decimal.neg a)))
      × (mod_numeric (numeric a) (numeric b)
          ≡ some (
              if Decimal.is_zero b
              then err division_by_zero
              else ok (numeric (Decimal.modulo a b))))
      × (cmp_numeric (numeric a) (numeric b) ≡ some (Decimal.cmp a b))
numeric_agrees a b ha hb = (
  add_agrees a b ha hb,
  sub_agrees a b ha hb,
  mul_agrees a b ha hb,
  neg_agrees a b ha hb,
  mod_agrees a b ha hb,
  cmp_agrees a b ha hb,
)
