-- ===== src/Builtin/Aggregate.antt =====
-- internal/builtin/aggregate.go: the accumulators. `none` is a panic.
use lightsql.Common.{
  Bool, true, ◌&&◌, ◌||◌, not, List, [], ◌∷◌, Option, none, some, if◌then◌else◌, ◌==◌, Result, ok,
  err,
}
use lightsql.Common.Int.{ℤ, pos, ◌+ℤ◌}
use lightsql.Types.Word.{word_of, int_of}
use lightsql.Types.Overflow.{wrap}
use lightsql.Types.Value.{Value, Kind, kind_eq, int, float}
use lightsql.Types.Value
use lightsql.Types.Numeric.{numeric, add_numeric}
use lightsql.Types.Division.{div_numeric}
use lightsql.Types.Decimal.{to_int64}
use lightsql.Types.Numeric.{as_decimal}
use lightsql.Types.Float.{Float64}
use lightsql.Types.Compare.{compare, is_null, as_float, null_value, is_lt, is_gt}
use lightsql.Builtin.Keys.{Keys, KeySet, add_key}

-- `countAgg`
pub record CountAgg : Type 0 where
  pub n : ℤ
  pub star : Bool

abbrev int_value : ℤ → Value
int_value i = record { k = int; scale = 0; n = word_of i; s = [] }

unfoldable pub count_add : CountAgg → Value → CountAgg
count_add a v = if a.star || not (is_null v) then record a { n = wrap (a.n +ℤ pos 1) } else a

unfoldable pub count_result : CountAgg → Value
count_result a = int_value a.n

-- `AsInt` of a value that is not a float: a decimal that is no int64 gives 0.
unfoldable pub as_int : Value → Option ℤ
as_int v =
    if kind_eq v.k Value.numeric
    then elim (as_decimal v) [
      | none ↦ none
      | some d ↦ elim (to_int64 d) [ none ↦ some (pos 0) | some i ↦ some i ]
    ]
    else some (int_of v.n)

module _ (fl : Float64) (cast : Value → Kind → Result Value) where
  open fl use {Float, of_int, to_bits}

  -- `sumAgg`
  pub record SumAgg : Type 0 where
    pub i : ℤ
    pub dec : Value
    pub f : Float
    pub exact : Bool
    pub float_sum : Bool
    pub any : Bool

  -- `toNumeric`
  unfoldable pub to_numeric : Value → Value
  to_numeric v = if kind_eq v.k Value.numeric then v else elim (cast v Value.numeric) [
    | ok out ↦ out
    | err c ↦ numeric (record { unscaled = pos 0; scale = 0 })
  ]

  abbrev with_dec : SumAgg → Option Value → Option SumAgg
  with_dec a none = none
  with_dec a (some d) = some (record a { any = true; exact = true; dec = d })

  abbrev with_int : SumAgg → Option ℤ → Option SumAgg
  with_int a none = none
  with_int a (some i) = some (record a { any = true; i = wrap (a.i +ℤ i) })

  -- `sumAgg.Add`
  unfoldable pub sum_add : SumAgg → Value → Option SumAgg
  unfolding to_numeric as_int
  sum_add a v =
      if is_null v
      then some a
      else if a.float_sum
      then some (record a { any = true; f = fl.add a.f (as_float fl v) })
      else if kind_eq v.k float
      then some (record a {
        any = true;
        float_sum = true;
        f = fl.add (if a.exact then as_float fl a.dec else of_int a.i) (as_float fl v);
      })
      else if a.exact
      then with_dec a (add_numeric a.dec (to_numeric v))
      else if kind_eq v.k Value.numeric
      then with_dec a (add_numeric (to_numeric (int_value a.i)) v)
      else with_int a (as_int v)

  abbrev float_value : Float → Value
  float_value f = record { k = float; scale = 0; n = to_bits f; s = [] }

  -- `sumAgg.Result`
  unfoldable pub sum_result : SumAgg → Value
  sum_result a =
      if not a.any
      then null_value
      else if a.float_sum
      then float_value a.f
      else if a.exact
      then a.dec
      else int_value a.i

  -- `avgAgg`
  pub record AvgAgg : Type 0 where
    pub sum : SumAgg
    pub n : ℤ

  -- `avgAgg.Add`
  unfoldable pub avg_add : AvgAgg → Value → Option AvgAgg
  unfolding sum_add
  avg_add a v = if is_null v then some a else elim (sum_add a.sum v) [
    | none ↦ none
    | some s ↦ some (record { sum = s; n = wrap (a.n +ℤ pos 1) })
  ]

  abbrev float_mean : Value → ℤ → Value
  float_mean total n = float_value (fl.div (as_float fl total) (of_int n))

  abbrev mean : Value → ℤ → Option (Result Value) → Option Value
  mean total n none = none
  mean total n (some (ok q)) = some q
  mean total n (some (err c)) = some (float_mean total n)

  -- `avgAgg.Result`
  unfoldable pub avg_result : AvgAgg → Option Value
  unfolding sum_result to_numeric
  avg_result a =
      let total = sum_result a.sum in
      if word_of a.n == 0
      then some null_value
      else if kind_eq total.k float
      then some (float_mean total a.n)
      else mean total a.n (div_numeric (to_numeric total) (to_numeric (int_value a.n)))

  -- `extremeAgg`
  pub record ExtremeAgg : Type 0 where
    pub cur : Value
    pub minimum : Bool
    pub any : Bool

  -- Whether a value takes the place of the one that is kept.
  abbrev pub beats : Bool → Value → Value → Bool
  beats minimum v cur =
      (minimum && is_lt fl (compare fl v cur)) || (not minimum && is_gt fl (compare fl v cur))

  -- `extremeAgg.Add`
  unfoldable pub extreme_add : ExtremeAgg → Value → ExtremeAgg
  extreme_add a v =
      if is_null v
      then a
      else if not a.any
      then record a { cur = v; any = true }
      else if beats a.minimum v a.cur
      then record a { cur = v }
      else a

  -- `extremeAgg.Result`
  unfoldable pub extreme_result : ExtremeAgg → Value
  extreme_result a = if a.any then a.cur else null_value

-- `distinctAgg.Add`, over any accumulator.
unfoldable pub distinct_add :
    {A : Type 0} (ops : Keys (List Value))
    → (A → Value → A)
    → A × KeySet ops
    → Value
    → A × KeySet ops
distinct_add ops add (inner, seen) v =
    let (seen', new) = add_key ops seen (v ∷ []) in
    if is_null v then (inner, seen) else (if new then (add inner v, seen') else (inner, seen'))
