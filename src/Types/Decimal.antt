-- ===== src/Types/Decimal.antt =====
-- internal/types/decimal.go: exact base-ten numbers. A big.Int is an integer. The scale, an int32
-- that the source keeps non-negative, is a natural number; scales are taken to stay below 2^31.
pub mod Order
pub mod Rounding
pub mod Text
use Prim.Native.Nat.{compare, Ordering, lt, eq, gt}
use lightsql.Common.{
  ℕ, ◌+◌, ◌-◌, ◌*◌, ◌/◌, ◌%◌, ◌^◌, ◌≤◌, ◌<◌, ◌≡◌, refl, Bool, true, false, not, List, [], ◌∷◌, ◌++◌,
  Option, none, some, arith, ltb, leb, ◌==◌, if◌then◌else◌, max, Bytes, length,
}
use lightsql.Common.Int.{
  ℤ, pos, negsuc, ◌+ℤ◌, ◌-ℤ◌, ◌*ℤ◌, neg_ℤ, neg_of, quo, rem, mag, pos_part, neg_part, ℤ_eq,
}
use lightsql.Common.Digits.{show_ℤ}
use lightsql.Types.Word.{is_int64}

pub record Decimal : Type 0 where
  pub unscaled : ℤ
  pub scale : ℕ

-- `pow10`
abbrev pub pow10 : ℕ → ℕ
pow10 n = 10 ^ n

-- `Cmp` of math/big
abbrev pub cmp_ℤ : ℤ → ℤ → Ordering
cmp_ℤ a b = compare (pos_part a + neg_part b) (pos_part b + neg_part a)

-- `rescale`, to a scale that is at least the decimal's own.
unfoldable pub rescale : Decimal → ℕ → ℤ
rescale d scale =
    if scale == d.scale then d.unscaled else d.unscaled *ℤ pos (pow10 (scale - d.scale))

-- `align`
unfoldable pub align : Decimal → Decimal → ℤ × ℤ × ℕ
align a b = let scale = max a.scale b.scale in (rescale a scale, rescale b scale, scale)

unfoldable pub add : Decimal → Decimal → Decimal
add a b = let (x, y, scale) = align a b in record { unscaled = x +ℤ y; scale = scale }

unfoldable pub sub : Decimal → Decimal → Decimal
sub a b = let (x, y, scale) = align a b in record { unscaled = x -ℤ y; scale = scale }

unfoldable pub mul : Decimal → Decimal → Decimal
mul a b = record { unscaled = a.unscaled *ℤ b.unscaled; scale = a.scale + b.scale }

unfoldable pub modulo : Decimal → Decimal → Decimal
modulo a b = let (x, y, scale) = align a b in record { unscaled = rem x y; scale = scale }

unfoldable pub neg : Decimal → Decimal
neg d = record d { unscaled = neg_ℤ d.unscaled }

unfoldable pub is_zero : Decimal → Bool
is_zero d = ℤ_eq d.unscaled (pos 0)

unfoldable pub sign : Decimal → Ordering
sign d = cmp_ℤ d.unscaled (pos 0)

unfoldable pub cmp : Decimal → Decimal → Ordering
cmp a b = let (x, y, scale) = align a b in cmp_ℤ x y

-- `Round`: half away from zero.
unfoldable pub round : Decimal → ℕ → Decimal
unfolding rescale
round d scale =
    if leb d.scale scale
    then record { unscaled = rescale d scale; scale = scale }
    else let drop = pow10 (d.scale - scale) in
      let q = quo d.unscaled (pos drop) in
      let r = rem d.unscaled (pos drop) in
      let bump =
        if ltb (mag r * 2) drop
        then q
        else elim d.unscaled [ negsuc n ↦ q -ℤ pos 1 | pos n ↦ q +ℤ pos 1 ] in
      record { unscaled = if mag r == 0 then q else bump; scale = scale }

-- `Int64`, and whether it fitted.
unfoldable pub to_int64 : Decimal → Option ℤ
unfolding round
to_int64 d = let whole = round d 0 in if is_int64 whole.unscaled then some whole.unscaled else none
