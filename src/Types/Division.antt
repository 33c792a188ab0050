-- ===== src/Types/Division.antt =====
-- internal/types/decimal_parse.go: division of decimals, and the scale that it chooses. An int32 that
-- the source computes on the way to a scale is an integer here.
pub mod Nearest
use lightsql.Common.{
  ℕ, ◌+◌, ◌-◌, ◌*◌, ◌/◌, ◌^◌, Bool, true, false, Option, none, some, ltb, if◌then◌else◌, max, min,
  length, Result, ok, err, division_by_zero,
}
use lightsql.Common.Int.{ℤ, pos, negsuc, ◌-ℤ◌, ◌*ℤ◌, neg_of, sub_ℕ, quo, mag}
use lightsql.Common.Digits.{show_ℕ}
use lightsql.Types.Value.{Value}
use lightsql.Types.Decimal.{Decimal, is_zero, pow10, round}
use lightsql.Types.Numeric.{numeric, general}

-- Floor division by four, as `nbaseWeight` writes it out.
abbrev pub quarter : ℤ → ℤ
quarter (pos e) = pos (e / 4)
quarter (negsuc n) = neg_of ((n + 4) / 4)

unfoldable pub nbase_weight : Decimal → ℤ
nbase_weight d =
    if is_zero d then pos 0 else quarter (sub_ℕ (length (show_ℕ (mag d.unscaled))) (1 + d.scale))

-- The digits of `abs`, moved by `shift` places.
abbrev pub moved : ℕ → ℤ → ℕ
moved abs (pos shift) = abs / pow10 shift
moved abs (negsuc n) = abs * pow10 (n + 1)

unfoldable pub lead : Decimal → ℕ
unfolding nbase_weight
lead d = if is_zero d then 0 else moved (mag d.unscaled) (pos d.scale -ℤ nbase_weight d *ℤ negsuc 3)

-- `max(rscale, 0)`
abbrev pub at_least_zero : ℤ → ℕ
at_least_zero (pos n) = n
at_least_zero (negsuc n) = 0

unfoldable pub div_scale : Decimal → Decimal → ℕ
unfolding nbase_weight lead
div_scale a b =
    let weight = nbase_weight a -ℤ nbase_weight b in
    let qweight = if ltb (lead a) (lead b) then weight -ℤ pos 1 else weight in
    let rscale = pos 16 -ℤ qweight *ℤ pos 4 in
    min (max (at_least_zero rscale) (max a.scale b.scale)) 1000

-- The quotient with one digit more than is asked for.
abbrev pub long_quotient : Decimal → Decimal → ℕ → Decimal
long_quotient a b rscale = record {
  unscaled = quo (a.unscaled *ℤ pos (pow10 (rscale + b.scale + 1 - a.scale))) b.unscaled;
  scale = rscale + 1;
}

-- `Div` for a result of the given scale; `none` is the panic of `pow10` on a negative exponent.
unfoldable pub div_at : ℕ → Decimal → Decimal → Option (Result Decimal)
div_at rscale a b =
    if is_zero b
    then some (err division_by_zero)
    else if is_zero a
    then some (ok (record { unscaled = pos 0; scale = max a.scale b.scale }))
    else if ltb (rscale + b.scale + 1) a.scale
    then none
    else some (ok (round (long_quotient a b rscale) rscale))

-- `Div`
unfoldable pub div : Decimal → Decimal → Option (Result Decimal)
unfolding div_scale div_at
div a b = div_at (div_scale a b) a b

-- The second half of `DivNumeric`: the quotient, stored.
abbrev pub stored : Result Decimal → Result Value
stored (ok q) = ok (numeric q)
stored (err c) = err c

abbrev pub stored_quotient : Option (Option (Result Decimal)) → Option (Result Value)
stored_quotient (some (some r)) = some (stored r)
stored_quotient _ = none

-- `DivNumeric`
unfoldable pub div_numeric : Value → Value → Option (Result Value)
div_numeric a b = stored_quotient (general div a b)
