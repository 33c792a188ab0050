-- ===== src/Types/Tests.antt =====
-- Truth values, decimals and values at concrete inputs.
use lightsql.Common.{
  ◌+◌, ◌*◌, ◌^◌, ◌<◌, ◌≤◌, ◌≡◌, ◌≢◌, refl, false, ◌&&◌, ◌||◌, not, Option, none, some, [], ◌∷◌,
  ◌++◌, Bytes, length, ok, err, division_by_zero, arith, if◌then◌else◌,
}
use Prim.Native.Nat.{Ordering}
use lightsql.Common.Int.{pos, negsuc, ◌*ℤ◌, quo, mag}
use lightsql.Common.Digits.{show_ℤ}
use lightsql.Types.Bool3.{Bool3, and3, or3, not3}
use lightsql.Types.Bool3.Laws.{may, some_outcome, kleene}
use lightsql.Types.Overflow.{mul_no_overflow, scale_no_overflow}
use lightsql.Types.Value.{Value}
use lightsql.Types.Decimal
use lightsql.Types.Decimal.{Decimal, cmp_ℤ}
use lightsql.Types.Decimal.Rounding.{with_sign, round_nearest, to_int64_rounds}
use lightsql.Types.Numeric.{
  numeric, add_numeric, sub_numeric, mul_numeric, mod_numeric, neg_numeric, cmp_numeric,
}
use lightsql.Types.Numeric.Agreement.{numeric_agrees}
use lightsql.Types.Division
use lightsql.Types.Division.{div_scale}
use lightsql.Types.Division.Nearest.{dividend, div_nearest, div_panics}
use lightsql.Types.Codec.{append_value, decode_value}
use lightsql.Types.Codec.RoundTrip.{is_number, decode_value-append_value}

kleene_example :
    (may (and3 Bool3.unknown Bool3.false) false ≡ some_outcome ◌&&◌ Bool3.unknown Bool3.false false)
    × (may (or3 Bool3.unknown Bool3.false) false
        ≡ some_outcome ◌||◌ Bool3.unknown Bool3.false false)
    × (may (not3 Bool3.unknown) false ≡ may Bool3.unknown (not false))
kleene_example = kleene Bool3.unknown Bool3.false false

abbrev price : Decimal
price = record { unscaled = pos 150; scale = 2 }

abbrev debt : Decimal
debt = record { unscaled = negsuc 24; scale = 1 }

-- More digits than an int64 holds.
abbrev huge : Decimal
huge = record { unscaled = pos (10 ^ 20 + 5); scale = 3 }

numeric_agrees_example :
    (add_numeric (numeric price) (numeric huge) ≡ some (numeric (Decimal.add price huge)))
    × (sub_numeric (numeric price) (numeric huge) ≡ some (numeric (Decimal.sub price huge)))
    × (mul_numeric (numeric price) (numeric huge) ≡ some (numeric (Decimal.mul price huge)))
    × (neg_numeric (numeric price) ≡ some (numeric (Decimal.neg price)))
    × (mod_numeric (numeric price) (numeric huge)
        ≡ some (
            if Decimal.is_zero huge
            then err division_by_zero
            else ok (numeric (Decimal.modulo price huge))))
    × (cmp_numeric (numeric price) (numeric huge) ≡ some (Decimal.cmp price huge))
numeric_agrees_example = numeric_agrees price huge (omega arith) (omega arith)

debt_below : Decimal.cmp debt price ≢ Ordering.gt
unfolding Decimal.cmp Decimal.align Decimal.rescale ◌*ℤ◌
debt_below e = ground arith

price_below : Decimal.cmp price huge ≢ Ordering.gt
unfolding Decimal.cmp Decimal.align Decimal.rescale ◌*ℤ◌
price_below e = ground arith

round_nearest_example :
    let q = (Decimal.round price 0).unscaled in
    (mag q * 10 ^ 2 * 2 ≤ 150 * 2 + 10 ^ 2)
    × (150 * 2 + 10 ^ 2 < (mag q + 1) * 10 ^ 2 * 2)
    × (q ≡ with_sign (pos 150) (mag q))
    × ((Decimal.round price 0).scale ≡ 0)
round_nearest_example = round_nearest price 0 (omega arith)

price_rounded : Decimal.to_int64 price ≡ some (pos 2)
price_rounded = to_int64_rounds 150 1 (omega arith) (omega arith)

scaled : scale_no_overflow (pos 42) 2 ≡ some (pos 4200)
unfolding scale_no_overflow mul_no_overflow ◌*ℤ◌ quo
scaled = refl

-- Nothing parses as JSON: a jsonb is then kept as it is.
abbrev no_json : Bytes → Option Value
no_json s = none

huge_is_short : length (show_ℤ huge.unscaled) ≤ 2 ^ 30
unfolding show_ℤ
huge_is_short = omega arith

decode_value-append_value_example :
    decode_value no_json (append_value (numeric huge) ++ 7 ∷ []) ≡ ok (numeric huge, 7 ∷ [])
decode_value-append_value_example =
    decode_value-append_value no_json (numeric huge) (7 ∷ [])
      (is_number huge (omega arith) huge_is_short)

price_not_zero : Decimal.is_zero (price) ≡ false
unfolding Decimal.is_zero
price_not_zero = refl

debt_not_zero : Decimal.is_zero (debt) ≡ false
unfolding Decimal.is_zero
debt_not_zero = refl

one_not_zero : Decimal.is_zero (record { unscaled = pos 1; scale = 1010 }) ≡ false
unfolding Decimal.is_zero
one_not_zero = refl

three_not_zero : Decimal.is_zero (record { unscaled = pos 3; scale = 0 }) ≡ false
unfolding Decimal.is_zero
three_not_zero = refl

div_nearest_example :
    let s = div_scale price debt in
    (q : Decimal) × (Division.div price debt ≡ some (ok q))
    × (q.scale ≡ s)
    × (mag q.unscaled * 10 * 25 * 2 ≤ dividend s price debt * 2 + 10 * 25)
    × (dividend s price debt * 2 + 10 * 25 < (mag q.unscaled + 1) * 10 * 25 * 2)
    × (q.unscaled ≡ with_sign (pos 150 *ℤ negsuc 24) (mag q.unscaled))
div_nearest_example = div_nearest price debt price_not_zero debt_not_zero (omega arith)

-- 1e-1010 and 3
div_panics_example :
    Division.div
      (record { unscaled = pos 1; scale = 1010 })
      (record { unscaled = pos 3; scale = 0 })
    ≡ none
div_panics_example =
    div_panics (record { unscaled = pos 1; scale = 1010 }) (record { unscaled = pos 3; scale = 0 })
      one_not_zero three_not_zero (omega arith)
