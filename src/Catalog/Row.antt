-- ===== src/Catalog/Row.antt =====
-- internal/catalog/catalog.go: what a row is checked for on its way in. `none` is a panic.
pub mod Numeric
pub mod Fit
use lightsql.Common.{
  ℕ, ◌+◌, ◌-◌, ◌%◌, ◌^◌, Bool, true, false, ◌&&◌, List, [], ◌∷◌, ◌++◌, Option, none, some, ltb,
  if◌then◌else◌, Bytes, bytes, bytes_eq, length, Result, ok, err, not_null_violation,
  numeric_value_out_of_range,
}
use lightsql.Types.Value
use lightsql.Types.Value.{Value, Kind, kind_eq}
use lightsql.Types.Decimal.{Decimal, round}
use lightsql.Types.Decimal.Text.{to_string, trim_minus}
use lightsql.Common.Int.{ℤ}
use lightsql.Common.Digits.{show_ℕ, show_ℤ}
use lightsql.Types.Numeric.{scale_tag, numeric, as_decimal, cut}
use lightsql.Types.Compare.{is_null}
use lightsql.Exec.Eval.{Row}

-- `Column`, with the parts of its type, and without what only the binder and messages use.
pub record Column : Type 0 where
  pub kind : Kind
  pub mods : List ℕ
  pub serial : Bool
  pub not_null : Bool
  pub missing : Value

-- `digitsBefore`
unfoldable pub digits_before : Decimal → ℕ
unfolding to_string cut
digits_before d =
    let whole = (cut (trim_minus (to_string d)) b'.').0 in
    if bytes_eq whole (bytes "0") then 0 else length whole

-- The rounded decimal, where it has no more digits than the precision leaves. The source subtracts the
-- scale from the precision, in an int.
unfoldable pub in_precision : ℕ → ℕ → Decimal → Result Value
unfolding digits_before
in_precision precision scale d =
    if ltb precision (digits_before d + scale)
    then err numeric_value_out_of_range
    else ok (numeric d)

-- `int32(scale)`: the number itself below 2^31, and a negative one, `below` zero, in the other half of the words.
unfoldable pub word32 : ℕ → ℕ
word32 scale = scale % 2 ^ 32

-- Rounding to `below` places left of the point, which an int32 scale below zero asks for: the quotient of Round.
-- The difference of the scales is an int32 again, and pow10 of a negative one is a panic.
unfoldable pub round_below : Decimal → ℕ → Option ℤ
unfolding round
round_below d below =
    let places = d.scale + below in
    let q = (round (record { unscaled = d.unscaled; scale = places }) 0).unscaled in
    if ltb places (2 ^ 31) then some q else none

-- `Numeric` of a decimal with a scale below zero, which is printed without a point.
unfoldable pub in_precision_below : ℕ → ℕ → ℕ → ℤ → Result Value
unfolding digits_before
in_precision_below precision scale below q =
    if ltb precision (digits_before (record { unscaled = q; scale = 0 }) + scale)
    then err numeric_value_out_of_range
    else ok (record {
      k = Value.numeric;
      scale = scale_tag;
      n = 0;
      s = b'-' ∷ show_ℕ below ++ b':' ∷ show_ℤ q;
    })

-- The rest of `fitNumeric`, from the int32 scale on.
unfoldable pub fit_decimal : ℕ → ℕ → ℕ → Decimal → Option (Result Value)
unfolding in_precision in_precision_below round_below
fit_decimal precision scale w d =
    let below = 2 ^ 32 - w in
    let left_of_point : Option (Result Value) = elim (round_below d below) [
      | none ↦ none
      | some q ↦ some (in_precision_below precision scale below q)
    ] in
    if ltb w (2 ^ 31) then some (in_precision precision scale (round d w)) else left_of_point

-- `fitNumeric`, by the modifiers of the column.
unfoldable pub fit_numeric : Value → List ℕ → Option (Result Value)
unfolding word32 fit_decimal
fit_numeric v (precision ∷ scale ∷ mods) = elim (as_decimal v) [
  | none ↦ none
  | some d ↦ fit_decimal precision scale (word32 scale) d
]
fit_numeric v _ = some (ok v)

-- What checkRow does with one cell.
unfoldable pub check_cell : Column → Value → Option (Result Value)
unfolding fit_numeric
check_cell col v =
    let fitted = fit_numeric v col.mods in
    if is_null v
    then some (if col.not_null then err not_null_violation else ok v)
    else if kind_eq col.kind Value.numeric
    then fitted
    else some (ok v)

abbrev pub with_cell : Option (Result Value) → Option (Result Row) → Option (Result Row)
with_cell (some (ok v)) (some (ok row)) = some (ok (v ∷ row))
with_cell (some (ok v)) rest = rest
with_cell (some (err c)) rest = some (err c)
with_cell none rest = none

-- `checkRow`: the row that is stored. A row shorter than the table is an index out of range.
unfoldable pub check_row : List Column → Row → Option (Result Row)
unfolding check_cell
check_row [] row = some (ok row)
check_row (col ∷ cols) [] = none
check_row (col ∷ cols) (v ∷ row) = with_cell (check_cell col v) (check_row cols row)
