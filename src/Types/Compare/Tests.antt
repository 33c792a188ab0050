-- ===== src/Types/Compare/Tests.antt =====
-- The order of values at concrete inputs, over a small instance of the floats.
use Prim.Native.Nat.{Ordering, lt, eq, gt}
use lightsql.Common.{
  ℕ, ◌+◌, ◌-◌, ◌*◌, ◌/◌, ◌%◌, ◌^◌, ◌≡◌, ◌≢◌, refl, inl, false, ◌==◌, ltb, Bytes, bytes, arith,
}
use lightsql.Common.Int.{pos, mag, ◌*ℤ◌}
use lightsql.Types.Word.{int_of}
use lightsql.Types.Value.{Value, is_numeric}
use lightsql.Types.Value
use lightsql.Types.Decimal.{Decimal}
use lightsql.Types.Decimal
use lightsql.Types.Numeric.{numeric}
use lightsql.Types.Float.{Float64}
use lightsql.Types.Compare.{compare, text_of, hash, cmp_float}
use lightsql.Types.Compare.Order.{Plain, of_kind, compare_transitive}
use lightsql.Types.Compare.Cycle.{int_cell, float_cell, compare_cycle, compare_float_gap}

-- Floats of so few digits that no odd integer is one.
abbrev pub coarse : Float64
coarse = record {
  Float = ℕ;
  from_bits = λ w. w;
  to_bits = λ x. x;
  of_int = λ z. mag z / 2 * 2;
  to_int = λ x. pos x;
  is_nan = λ x. false;
  less = ltb;
  same = λ x y. x == y;
  div = λ x y. x / y;
  power_of_ten = λ n. 10 ^ n;
  quotient = λ a b. mag a / mag b;
  add = λ x y. x + y;
  sub = λ x y. x - y;
  mul = λ x y. x * y;
  modulo = λ x y. x % y;
  pow = λ x y. x ^ y;
  negate = λ x. x;
}

text_is_no_number : is_numeric Value.text ≡ false
unfolding is_numeric
text_is_no_number = refl

text_kind : (s : Bytes) → (text_of s).k ≡ Value.text
unfolding text_of
text_kind s = refl

text_not_null : Value.text ≢ Value.null
text_not_null = grind arith

text_cell : (s : Bytes) → Plain Value.text (text_of s)
text_cell s = of_kind (text_of s) (text_kind s) text_not_null

abbrev one_tenth : Decimal
one_tenth = record { unscaled = pos 1; scale = 1 }

not_after : (o : Ordering) → o ≡ lt → o ≢ gt
not_after o e = grind (arith, e)

in_order :
    (compare coarse (text_of (bytes "a")) (text_of (bytes "b")) ≡ lt)
    × (compare coarse (text_of (bytes "b")) (text_of (bytes "c")) ≡ lt)
unfolding compare text_of
in_order = (refl, refl)

compare_transitive_example : compare coarse (text_of (bytes "a")) (text_of (bytes "c")) ≢ gt
compare_transitive_example =
    compare_transitive coarse (text_of (bytes "a")) (text_of (bytes "b")) (text_of (bytes "c"))
      (inl (
        Value.text,
        text_is_no_number,
        text_cell (bytes "a"),
        text_cell (bytes "b"),
        text_cell (bytes "c"),
      ))
      (not_after _ in_order.0) (not_after _ in_order.1)

tenth_below_one : Decimal.cmp one_tenth (record { unscaled = int_of 1; scale = 0 }) ≡ lt
unfolding ◌*ℤ◌ Decimal.cmp Decimal.align Decimal.rescale
tenth_below_one = refl

compare_cycle_example :
    (compare coarse (int_cell 1) (text_of (bytes "a")) ≡ lt)
    × (compare coarse (text_of (bytes "a")) (numeric one_tenth) ≡ lt)
    × (compare coarse (numeric one_tenth) (int_cell 1) ≡ lt)
compare_cycle_example =
    compare_cycle coarse one_tenth (bytes "a") 1 (omega arith) (omega arith) tenth_below_one

compare_float_gap_example :
    (compare coarse (int_cell 4) (float_cell 4) ≡ eq)
    × (compare coarse (float_cell 4) (int_cell 5) ≡ eq)
    × (compare coarse (int_cell 4) (int_cell 5) ≢ eq)
    × (¬ (
        (hash coarse (int_cell 4) ≡ hash coarse (float_cell 4))
        × (hash coarse (int_cell 5) ≡ hash coarse (float_cell 4))))
compare_float_gap_example =
    compare_float_gap coarse 4 5 4 (omega arith) (omega arith) (unfold cmp_float in refl)
      (unfold cmp_float in refl) (omega arith)
