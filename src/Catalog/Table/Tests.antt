-- ===== src/Catalog/Table/Tests.antt =====
-- A table of an id and a price, NUMERIC(4,2), and the theorems on tables at concrete inputs.
use lightsql.Common.{
  ℕ, ◌≡◌, refl, true, false, [], ◌∷◌, none, some, bytes, All, get_elem?, keep, sym, ◌-◌, arith,
  Result, ok, err, numeric_value_out_of_range, not_null_violation,
}
use mathlib.Core.Path.{subst}
use lightsql.Common.Int
use lightsql.Common.Int.{ℤ, pos, negsuc}
use lightsql.Common.Digits.{show_ℤ}
use lightsql.Types.Value
use lightsql.Types.Value.{Value}
use lightsql.Types.Decimal.{Decimal, round}
use lightsql.Types.Numeric.{numeric, as_decimal}
use lightsql.Types.Compare.{null_value}
use lightsql.Storage.Txn.{new_tx_manager, committed_in}
use lightsql.Types.Word.{half_word}
use lightsql.Storage.Heap
use lightsql.Storage.Tx
use lightsql.Storage.Heap.{Heap, Version}
use lightsql.Storage.Tx.{Tx, read_committed}
use lightsql.Exec.Eval.{Row, int_value}
use lightsql.Catalog.Row.{Column, fit_numeric, check_row}
use lightsql.Catalog.Row.Fit.{Precise, fit_numeric_lem}
use lightsql.Catalog.Table.{Table, insert_row, restore_sequences, next_serial, rows}
use lightsql.Catalog.Table.Sound.{IsSound, inserting, TableOp-IsSound}
use lightsql.Catalog.Table.Sequence.{IsAtMost, IsBelow, next_serial_fresh}

abbrev id_column : Column
id_column = record {
  kind = Value.int;
  mods = [];
  serial = true;
  not_null = true;
  missing = null_value;
}

abbrev price_column : Column
price_column = record {
  kind = Value.numeric;
  mods = 4 ∷ 2 ∷ [];
  serial = false;
  not_null = false;
  missing = null_value;
}

abbrev decimal : ℤ → ℕ → Decimal
decimal u scale = record { unscaled = u; scale = scale }

abbrev no_rows : Table
no_rows = record {
  name = bytes "public.item";
  columns = id_column ∷ price_column ∷ [];
  heap = record { versions = []; next_row = 1 };
  next_value = λ i. pos 0;
}

abbrev open_tx : Tx
open_tx = record {
  id = 3;
  iso = read_committed;
  read_only = false;
  snap = record { xmin = 3; xmax = 4; active = 3 ∷ [] };
  failed = false;
  done = false;
  journal = none;
  pending = [];
  started = 0;
}

-- 12.345 is rounded to 12.35, and 99.995 does not fit any more.
rounded_price :
    fit_numeric (numeric (decimal (pos 12345) 3)) (4 ∷ 2 ∷ [])
    ≡ some (ok (numeric (decimal (pos 1235) 2)))
unfolding fit_numeric numeric as_decimal round show_ℤ Int.rem Int.quo Int.◌*ℤ◌ Int.◌+ℤ◌ Int.◌-ℤ◌
rounded_price = refl

too_high :
    fit_numeric (numeric (decimal (negsuc 99994) 3)) (4 ∷ 2 ∷ [])
    ≡ some (err numeric_value_out_of_range)
unfolding fit_numeric numeric as_decimal round show_ℤ Int.rem Int.quo Int.◌*ℤ◌ Int.◌+ℤ◌ Int.◌-ℤ◌
too_high = refl

-- A scale of 2^32 + 1 is 1 as an int32.
wrapped_scale :
    fit_numeric (numeric (decimal (pos 125) 2)) (4294967306 ∷ 4294967297 ∷ [])
    ≡ some (ok (numeric (decimal (pos 13) 1)))
unfolding fit_numeric numeric as_decimal round show_ℤ Int.rem Int.quo Int.◌*ℤ◌ Int.◌+ℤ◌ Int.◌-ℤ◌
wrapped_scale = refl

-- NUMERIC(2,4) does not even store zero.
zero_refused :
    fit_numeric (numeric (decimal (pos 0) 0)) (2 ∷ 4 ∷ []) ≡ some (err numeric_value_out_of_range)
unfolding fit_numeric numeric as_decimal round show_ℤ Int.rem Int.quo Int.◌*ℤ◌ Int.◌+ℤ◌ Int.◌-ℤ◌
zero_refused = refl

no_id :
    check_row (id_column ∷ price_column ∷ []) (null_value ∷ null_value ∷ [])
    ≡ some (err not_null_violation)
unfolding check_row null_value
no_id = refl

price_decimal : as_decimal (numeric (decimal (pos 12345) 3)) ≡ some (decimal (pos 12345) 3)
unfolding as_decimal numeric
price_decimal = refl

fit_numeric_lem_example :
    (outcome : Result Value) × (fit_numeric (numeric (decimal (pos 12345) 3)) (4 ∷ 2 ∷ [])
      ≡ some outcome)
    × Precise 4 2 (round (decimal (pos 12345) 3) 2) outcome
fit_numeric_lem_example =
    fit_numeric_lem (numeric (decimal (pos 12345) 3)) (decimal (pos 12345) 3) 4 2 [] (omega arith)
      price_decimal

abbrev given_row : Row
given_row = int_value (pos 5) ∷ numeric (decimal (pos 12345) 3) ∷ []

abbrev one_row : Table
one_row = record no_rows {
  heap = record {
    versions =
        record {
          id = 1;
          xmin = 3;
          xmax = 0;
          vals = int_value (pos 5) ∷ numeric (decimal (pos 1235) 2) ∷ [];
        }
        ∷ [];
    next_row = 2;
  };
}

one_inserted : insert_row open_tx given_row no_rows ≡ some (ok (one_row, open_tx))
unfolding insert_row Heap.insert Tx.log numeric as_decimal round show_ℤ Int.rem Int.quo Int.◌*ℤ◌
    Int.◌+ℤ◌ Int.◌-ℤ◌
one_inserted = refl

TableOp-IsSound_example : IsSound one_row
TableOp-IsSound_example =
    TableOp-IsSound no_rows one_row (tt, (omega arith, tt))
      (inserting open_tx open_tx given_row no_rows one_row one_inserted) tt

seen_row :
    rows new_tx_manager open_tx one_row
    ≡ (int_value (pos 5) ∷ numeric (decimal (pos 1235) 2) ∷ []) ∷ []
unfolding rows Heap.scan Heap.visible keep numeric new_tx_manager committed_in
seen_row = refl

next_serial_fresh_example :
    All
      (λ row.
        IsBelow
          (next_serial 0 (restore_sequences new_tx_manager open_tx one_row)).1
          (get_elem? row 0))
      (rows new_tx_manager open_tx one_row)
next_serial_fresh_example = next_serial_fresh new_tx_manager open_tx one_row 0 refl (omega arith) (
    subst (λ seen. All (λ row. IsAtMost (pos (half_word - 2)) (get_elem? row 0)) seen)
      (sym seen_row) ((λ e. omega arith), tt))
