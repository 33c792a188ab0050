-- ===== src/Types/Numeric.antt =====
-- internal/types/decimal_value.go: the two representations of a decimal inside a Value. A small one
-- keeps an int64 and its scale in the payload word; any other keeps its text.
pub mod Encoding
pub mod Routes
pub mod Agreement
use Prim.Native.Nat.{Ordering}
use lightsql.Common.{
  ℕ, ◌+◌, ◌-◌, ◌^◌, Bool, true, false, ◌&&◌, ◌||◌, not, List, [], ◌∷◌, ◌++◌, Option, none, some,
  ltb, leb, ◌==◌, if◌then◌else◌, max, min, Bytes, Result, ok, err, Code, division_by_zero,
}
use mathlib.Core.Option
use lightsql.Common.Int.{ℤ, pos, negsuc, ◌+ℤ◌, ◌*ℤ◌, neg_ℤ, rem, ℤ_eq}
use lightsql.Common.Digits.{show_ℤ, show_ℕ, read_ℤ}
use lightsql.Types.Word.{word_of, int_of, is_int64}
use lightsql.Types.Overflow.{wrap, min_int64, add_no_overflow, mul_no_overflow, scale_no_overflow}
use lightsql.Types.Value.{Value, Kind, kind_eq}
use lightsql.Types.Value
use lightsql.Types.Decimal
use lightsql.Types.Decimal.{Decimal, cmp_ℤ}

-- `maxSmallScale`
abbrev pub max_small_scale : ℕ
max_small_scale = 18

-- `scaleTag`
abbrev pub scale_tag : ℕ
scale_tag = 255

-- `encodeDecimal`
unfoldable pub encode_decimal : Decimal → Bytes
encode_decimal d = show_ℕ d.scale ++ b':' ∷ show_ℤ d.unscaled

abbrev pub small_value : ℤ → ℕ → Value
small_value u scale = record { k = Value.numeric; scale = scale; n = word_of u; s = [] }

-- `Numeric`
unfoldable pub numeric : Decimal → Value
numeric d =
    if leb d.scale max_small_scale && is_int64 d.unscaled
    then small_value d.unscaled d.scale
    else record { k = Value.numeric; scale = scale_tag; n = 0; s = encode_decimal d }

-- `smallDecimal`; `none` is the false of the Go function.
unfoldable pub small_decimal : Value → Option (ℤ × ℕ)
small_decimal v =
    if not (kind_eq v.k Value.numeric) || v.scale == scale_tag
    then none
    else some (int_of v.n, v.scale)

-- `cut`: the text before and after the first separator.
unfoldable pub cut : Bytes → ℕ → Bytes × Bytes
cut [] sep = ([], [])
cut (c ∷ s) sep = let rest = cut s sep in if c == sep then ([], s) else (c ∷ rest.0, rest.1)

-- `ParseInt(text, 10, 32)` with its error dropped: no number reads as 0, and one out of range as the
-- nearest int32. A negative one, which only a column with a scale of 2^31 or more leads to, reads as 0
-- here.
unfoldable pub parse_scale : Bytes → ℕ
parse_scale text = elim (read_ℤ text) [
  | none ↦ 0
  | some z ↦ elim z [ pos n ↦ min n (2 ^ 31 - 1) | negsuc n ↦ 0 ]
]

unfoldable pub decode_decimal : Bytes → Decimal
unfolding cut parse_scale
decode_decimal s =
    let (scale_text, digits) = cut s b':' in
    record {
      unscaled = elim (read_ℤ digits) [ none ↦ pos 0 | some z ↦ z ];
      scale = parse_scale scale_text;
    }

-- `AsDecimal`; `none` is nil.
unfoldable pub as_decimal : Value → Option Decimal
unfolding decode_decimal small_decimal
as_decimal v = if not (kind_eq v.k Value.numeric) then none else elim (small_decimal v) [
  | some (unscaled, scale) ↦ some (record { unscaled = unscaled; scale = scale })
  | none ↦ some (decode_decimal v.s)
]

unfoldable pub align_ints : ℤ → ℕ → ℤ → ℕ → Option (ℤ × ℤ × ℕ)
align_ints x xs y ys =
    let scale = max xs ys in
    elim (scale_no_overflow x (scale - xs)) [
      | none ↦ none
      | some x' ↦ elim (scale_no_overflow y (scale - ys)) [
        | none ↦ none
        | some y' ↦ some (x', y', scale)
      ]
    ]

-- `alignSmall`
unfoldable pub align_small : Value → Value → Option (ℤ × ℤ × ℕ)
align_small a b = elim (small_decimal a) [
  | none ↦ none
  | some (x, xs) ↦ elim (small_decimal b) [ none ↦ none | some (y, ys) ↦ align_ints x xs y ys ]
]

-- The general path of an operation; `none` is a nil pointer that is followed.
unfoldable pub general {ℓ} : {A : Type ℓ} → (Decimal → Decimal → A) → Value → Value → Option A
general f a b = elim (as_decimal a) [
  | none ↦ none
  | some x ↦ elim (as_decimal b) [ none ↦ none | some y ↦ some (f x y) ]
]

-- `AddNumeric`
unfoldable pub add_numeric : Value → Value → Option Value
add_numeric a b = elim (align_small a b) [
  | none ↦ general (λ x y. numeric (Decimal.add x y)) a b
  | some (x, y, scale) ↦ elim (add_no_overflow x y) [
    | none ↦ general (λ x y. numeric (Decimal.add x y)) a b
    | some sum ↦ some (small_value sum scale)
  ]
]

-- `SubNumeric`
unfoldable pub sub_numeric : Value → Value → Option Value
sub_numeric a b = elim (align_small a b) [
  | none ↦ general (λ x y. numeric (Decimal.sub x y)) a b
  | some (x, y, scale) ↦ elim (add_no_overflow x (wrap (neg_ℤ y))) [
    | none ↦ general (λ x y. numeric (Decimal.sub x y)) a b
    | some diff ↦
        if not (ℤ_eq y min_int64)
        then some (small_value diff scale)
        else general (λ x y. numeric (Decimal.sub x y)) a b
  ]
]

-- The fast path of `MulNumeric`.
unfoldable pub mul_small : Option (ℤ × ℕ) → Option (ℤ × ℕ) → Option Value
mul_small (some (x, xs)) (some (y, ys)) =
    if leb (xs + ys) max_small_scale
    then elim (mul_no_overflow x y) [ none ↦ none | some prod ↦ some (small_value prod (xs + ys)) ]
    else none
mul_small (some p) none = none
mul_small none q = none

-- `MulNumeric`
unfoldable pub mul_numeric : Value → Value → Option Value
unfolding mul_small
mul_numeric a b = elim (mul_small (small_decimal a) (small_decimal b)) [
  | none ↦ general (λ x y. numeric (Decimal.mul x y)) a b
  | some v ↦ some v
]

-- `ModNumeric`
unfoldable pub mod_numeric : Value → Value → Option (Result Value)
mod_numeric a b = elim (align_small a b) [
  | some (x, y, scale) ↦
      some (if ℤ_eq y (pos 0) then err division_by_zero else ok (small_value (rem x y) scale))
  | none ↦
      general
        (λ x y.
          if Decimal.is_zero y then err division_by_zero else ok (numeric (Decimal.modulo x y)))
        a b
]

-- `NegNumeric`
unfoldable pub neg_numeric : Value → Option Value
neg_numeric a = elim (small_decimal a) [
  | none ↦ Option.map (λ d. numeric (Decimal.neg d)) (as_decimal a)
  | some (x, scale) ↦
      if not (ℤ_eq x min_int64)
      then some (small_value (neg_ℤ x) scale)
      else Option.map (λ d. numeric (Decimal.neg d)) (as_decimal a)
]

-- `cmpNumeric`
unfoldable pub cmp_numeric : Value → Value → Option Ordering
cmp_numeric a b = elim (align_small a b) [
  | some (x, y, scale) ↦ some (cmp_ℤ x y)
  | none ↦ general Decimal.cmp a b
]
