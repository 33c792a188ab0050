-- ===== src/Types/Numeric/Encoding.antt =====
-- A decimal read back from a Value is the one that was stored, in either representation.
use lightsql.Common.{
  ℕ, ◌^◌, ◌<◌, ◌≤◌, ◌≡◌, refl, ap, ◌∙◌, Bool, true, false, ◌&&◌, [], ◌∷◌, ◌++◌, none, some, leb,
  if◌then◌else◌, Bytes, All, arith, Bool-cases, inl, inr,
}
use lightsql.Common.Int.{pos}
use lightsql.Common.Digits.{show_ℤ, show_ℕ, read_ℤ, read_ℤ-show_ℤ, show_ℕ-digits}
use lightsql.Types.Word.{is_int64, int_of-word_of}
use lightsql.Types.Value
use lightsql.Types.Value.{Value}
use lightsql.Types.Decimal.{Decimal}
use lightsql.Types.Numeric.{
  numeric, small_decimal, as_decimal, decode_decimal, encode_decimal, cut, parse_scale,
  max_small_scale, small_value, scale_tag,
}

cut-append :
    (xs ys : Bytes) → All (λ c. (48 ≤ c) × (c ≤ 57)) xs → cut (xs ++ b':' ∷ ys) b':' ≡ (xs, ys)
unfolding cut
cut-append [] ys h = refl
cut-append (x ∷ xs) ys h = ground (arith, cut-append xs ys h.1, h.0)

parse_scale-show_ℕ : (n : ℕ) → n < 2 ^ 31 → parse_scale (show_ℕ n) ≡ n
unfolding parse_scale
parse_scale-show_ℕ n h = ground (arith, read_pos n)
  where
    read_pos : (n : ℕ) → read_ℤ (show_ℕ n) ≡ some (pos n)
    read_pos n = unfold show_ℤ in read_ℤ-show_ℤ (pos n)

pub decode-encode : (d : Decimal) → d.scale < 2 ^ 31 → decode_decimal (encode_decimal d) ≡ d
unfolding decode_decimal encode_decimal
decode-encode d h = rw (
  cut-append (show_ℕ d.scale) (show_ℤ d.unscaled) (show_ℕ-digits d.scale),
  read_ℤ-show_ℤ,
  parse_scale-show_ℕ d.scale h,
)

-- Whether the decimal is stored inline.
abbrev pub fits : Decimal → Bool
fits d = leb d.scale max_small_scale && is_int64 d.unscaled

pub small_decimal-numeric :
    (d : Decimal)
    → small_decimal (numeric d) ≡ (if fits d then some (d.unscaled, d.scale) else none)
unfolding small_decimal numeric
small_decimal-numeric d = elim (Bool-cases (fits d)) [
  | inl small ↦ rw small (ground (arith, int_of-word_of d.unscaled))
  | inr large ↦ rw large
]

large_value : Decimal → Value
large_value d = record { k = Value.numeric; scale = scale_tag; n = 0; s = encode_decimal d }

pub numeric-small : (d : Decimal) → fits d ≡ true → numeric d ≡ small_value d.unscaled d.scale
unfolding numeric
numeric-small d h = rw h

numeric-large : (d : Decimal) → fits d ≡ false → numeric d ≡ large_value d
unfolding numeric large_value
numeric-large d h = rw h

as_decimal-small :
    (d : Decimal) → fits d ≡ true → as_decimal (small_value d.unscaled d.scale) ≡ some d
unfolding as_decimal
as_decimal-small d h = ground (arith, int_of-word_of d.unscaled)

as_decimal-large :
    (d : Decimal) → as_decimal (large_value d) ≡ some (decode_decimal (encode_decimal d))
unfolding as_decimal large_value
as_decimal-large d = refl

-- A decimal read back from a Value is the one that was stored, whichever representation it has.
pub as_decimal-numeric : (d : Decimal) → d.scale < 2 ^ 31 → as_decimal (numeric d) ≡ some d
as_decimal-numeric d h = elim (Bool-cases (fits d)) [
  | inl small ↦ ap as_decimal (numeric-small d small) ∙ as_decimal-small d small
  | inr large ↦
      ap as_decimal (numeric-large d large)
      ∙ as_decimal-large d
      ∙ ap (λ (x : Decimal). some x) (decode-encode d h)
]
