-- ===== src/Exec/Tests.antt =====
-- The executor at concrete inputs.
use lightsql.Common.{
  ℕ, ◌≡◌, inl, refl, Bool, true, false, [], ◌∷◌, ◌++◌, map, List, Option, none, Code, ◌==◌, ==_refl,
  arith, ok, err, datatype_mismatch, division_by_zero,
}
use lightsql.Common.Int.{pos}
use lightsql.Types.Bool3
use lightsql.Types.Value.{Value}
use lightsql.Types.Compare.{null_value, bool3_value, sql_eq}
use lightsql.Types.Compare.Tests.{coarse}
use lightsql.Exec.Eval.{Row, done, failed, Eval, Calls, int_value, in_result}
use lightsql.Exec.Compile.Logic.{any3, negated, in_result-any3}
use lightsql.Exec.Sort.{SortKey, Entry}
use lightsql.Exec.Join.{join}
use lightsql.Exec.Join.Meaning.{each_left, lonely, join_meaning}
use lightsql.Builtin.Keys.{Keys}
use lightsql.Builtin.Keys.Laws.{IsKeys, count}
use lightsql.Exec.SetOp.{set_except, set_op}
use lightsql.Exec.SetOp.Counts.{copies, count-set_op}

-- Numbers as keys, with a hash that has collisions.
abbrev numbers : Keys ℕ
numbers = record { same_key = λ a b. a == b; hash = λ a. 0 }

numbers-IsKeys : IsKeys numbers
numbers-IsKeys = record {
  same_refl = ==_refl;
  same_symm = λ a b. ground arith;
  same_trans = λ a b c h k. ground arith;
  hash-same = λ a b h. refl;
}

-- Three copies on the left and one on the right side.
three_and_one : (set_op numbers set_except true (7 ∷ 7 ∷ 8 ∷ 7 ∷ [], none) (7 ∷ [], none)).1 ≡ none
unfolding set_op
three_and_one = refl

count-set_op_example :
    ◌≡◌ {A = Option Code} none none
    × ◌≡◌ {A = Option Code} none none
    × (count numbers numbers-IsKeys 7
          (set_op numbers set_except true (7 ∷ 7 ∷ 8 ∷ 7 ∷ [], none) (7 ∷ [], none)).0
        ≡ copies set_except true
            (count numbers numbers-IsKeys 7 (7 ∷ 7 ∷ 8 ∷ 7 ∷ []))
            (count numbers numbers-IsKeys 7 (7 ∷ [])))
count-set_op_example =
    count-set_op numbers numbers-IsKeys set_except true (7 ∷ 7 ∷ 8 ∷ 7 ∷ [], none) (7 ∷ [], none) 7
      three_and_one

-- Calls that know no function and no JSON, over rough floats.
abbrev few_calls : Calls
few_calls = record {
  floats = coarse;
  cast = λ v k. err datatype_mismatch;
  json_field = λ a b. a;
  json_text = λ a b. a;
  json_contains = λ a b. Bool3.unknown;
  compile_pattern = λ pieces. none;
  lookup_scalar = λ name. none;
  now = λ k. null_value;
  run = λ sub cells args. ([], none);
}

abbrev one : Value
one = int_value (pos 1)

abbrev two : Value
two = int_value (pos 2)

in_result-any3_example :
    in_result few_calls one (two ∷ null_value ∷ []) true
    ≡ bool3_value (negated true (any3 (map (sql_eq coarse one) (two ∷ null_value ∷ []))))
in_result-any3_example = in_result-any3 few_calls one (two ∷ null_value ∷ []) true (inl refl)

-- NULL IN () is NULL here, where SQL asks for false.
in_no_row : in_result few_calls null_value [] false ≡ null_value
unfolding in_result null_value
in_no_row = refl

abbrev gives : Value → Eval
gives v cells args row = done v

abbrev fails : Eval
fails cells args row = failed division_by_zero

-- The join of two columns on equal numbers.
abbrev equal_cells : Row → Bool
equal_cells (a ∷ b ∷ []) = a.n == b.n
equal_cells _ = false

join_meaning_example :
    join
      (λ row. ok (equal_cells row))
      true
      true
      1
      1
      ((one ∷ []) ∷ (two ∷ []) ∷ [], none)
      ((two ∷ []) ∷ [], none)
    ≡ (
      each_left equal_cells true true 1 1 ((two ∷ []) ∷ []) ((one ∷ []) ∷ (two ∷ []) ∷ [])
          ++ lonely equal_cells true true 1 1 ((two ∷ []) ∷ []) ((one ∷ []) ∷ (two ∷ []) ∷ []),
      none,
    )
join_meaning_example =
    join_meaning equal_cells true true 1 1 (λ row. ok (equal_cells row))
      ((one ∷ []) ∷ (two ∷ []) ∷ []) ((two ∷ []) ∷ []) (λ row. refl)

-- ORDER BY the first cell DESC NULLS LAST.
abbrev first_cell : SortKey
first_cell = record {
  eval = λ row. elim row [ [] ↦ ok null_value | v ∷ _ ↦ ok v ];
  desc = true;
  nulls_first = false;
}

abbrev unsorted : List Row
unsorted = (one ∷ []) ∷ (null_value ∷ []) ∷ (two ∷ []) ∷ []

abbrev entry_of : Value → Entry
entry_of v = record { row = v ∷ []; keys = v ∷ [] }

abbrev unsorted_entries : List Entry
unsorted_entries = entry_of one ∷ entry_of null_value ∷ entry_of two ∷ []
