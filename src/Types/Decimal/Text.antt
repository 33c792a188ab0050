-- ===== src/Types/Decimal/Text.antt =====
-- internal/types/decimal.go: how a decimal is printed.
use lightsql.Common.{
  ℕ, zero, suc, ◌-◌, Bool, false, [], ◌∷◌, ◌++◌, ◌==◌, leb, if◌then◌else◌, Bytes, bytes, length,
  take, drop,
}
use lightsql.Common.Digits.{show_ℤ}
use lightsql.Types.Decimal.{Decimal}

-- `HasPrefix` and `TrimPrefix`, of a minus sign
abbrev pub has_minus : Bytes → Bool
has_minus [] = false
has_minus (c ∷ text) = c == b'-'

abbrev pub trim_minus : Bytes → Bytes
trim_minus [] = []
trim_minus (c ∷ text) = if c == b'-' then text else c ∷ text

-- `strings.Repeat("0", n)`
abbrev pub zeros : ℕ → Bytes
zeros zero = []
zeros (suc n) = b'0' ∷ zeros n

-- What placePoint writes behind the sign.
unfoldable pub with_point : Bytes → ℕ → Bytes
with_point digits zero = digits
with_point digits (suc s) =
    if leb (length digits) (suc s)
    then bytes "0." ++ zeros (suc s - length digits) ++ digits
    else let whole = length digits - suc s in take whole digits ++ b'.' ∷ drop whole digits

-- `placePoint`
unfoldable pub place_point : Bytes → ℕ → Bytes
unfolding with_point
place_point digits scale =
    (if has_minus digits then b'-' ∷ [] else []) ++ with_point (trim_minus digits) scale

-- `String`
unfoldable pub to_string : Decimal → Bytes
unfolding place_point
to_string d = place_point (show_ℤ d.unscaled) d.scale
