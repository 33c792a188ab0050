-- ===== src/Exec/Compile/Nulls.antt =====
-- NULL in, NULL out, and the kinds that arithmetic gives (internal/exec/expr.go).
use Prim.Native.Nat.{Ordering}
use lightsql.Common.{
  ◌≡◌, refl, ap, ◌∙◌, Bool, true, false, ◌||◌, not, List, Option, none, some, Bytes, Result, ok,
  err, ◌>>=◌, arith,
}
use mathlib.Core.Path.{subst}
use lightsql.Types.Bool3.{Bool3}
use lightsql.Types.Value.{Value, Kind}
use lightsql.Types.Compare.{
  is_null, null_value, bool3_value, sql_eq, sql_ne, sql_lt, sql_le, sql_gt, sql_ge, sql_cmp, is_eq,
  is_lt, is_gt,
}
use lightsql.Exec.Eval.{Row, Outcome, done, Eval, Calls, null_or, eval_pair}
use lightsql.Exec.Expr.{
  op_eq, op_ne, op_lt, op_le, op_gt, op_ge, op_is_distinct_from, op_is_not_distinct_from, BinaryOp,
  op_arith, op_compare, op_json, op_concat, op_and, op_or, op_like, op_not_like, Expr,
}
use lightsql.Exec.Compile.{
  compile_binary, comparison, compile_like, eval_like, like_regexp, fixed_pattern,
}

-- The operators of which a NULL operand makes NULL.
abbrev pub is_strict : BinaryOp → Bool
is_strict op_and = false
is_strict op_or = false
is_strict (op_compare op_is_distinct_from) = false
is_strict (op_compare op_is_not_distinct_from) = false
is_strict _ = true

module _ (calls : Calls) where
  open calls use {floats}

  -- What a closure gives for operands one of which is NULL.
  GivesNull : Eval → Eval → Eval → Type 0
  GivesNull l r e =
      (cells : List Row) (args : List Value) (row : Row) (lv rv : Value)
      → l cells args row ≡ done lv
      → r cells args row ≡ done rv
      → is_null lv || is_null rv ≡ true
      → e cells args row ≡ done null_value

  pair-GivesNull :
      (l r : Eval) (f : Value → Value → Outcome Value)
      → ((lv rv : Value) → is_null lv || is_null rv ≡ true → f lv rv ≡ done null_value)
      → GivesNull l r (eval_pair calls l r f)
  unfolding GivesNull
  pair-GivesNull l r f h cells args row lv rv el er absent = rw (el, er) (h lv rv absent)

  null_or-null :
      (f : Value → Value → Outcome Value) (lv rv : Value)
      → is_null lv || is_null rv ≡ true
      → null_or calls f lv rv ≡ done null_value
  unfolding null_or null_value
  null_or-null f lv rv h = rw h refl

  sql_cmp-null :
      (pred : Ordering → Bool) (lv rv : Value)
      → is_null lv || is_null rv ≡ true
      → sql_cmp floats pred lv rv ≡ Bool3.unknown
  unfolding sql_cmp
  sql_cmp-null pred lv rv h = go (is_null lv) (is_null rv) refl refl h
    where
      go :
          (a b : Bool)
          → is_null lv ≡ a
          → is_null rv ≡ b
          → a || b ≡ true
          → sql_cmp floats pred lv rv ≡ Bool3.unknown
      go true b ea eb h = rw (sql_cmp, ea) refl
      go false true ea eb h = rw (sql_cmp, ea, eb) refl
      go false false ea eb h = ground arith

  unknown_is_null : done (bool3_value Bool3.unknown) ≡ done null_value
  unfolding bool3_value
  unknown_is_null = refl

  -- What a compiled operator gives, if it compiles.
  AllGiveNull : Eval → Eval → Result Eval → Type 0
  unfolding GivesNull
  AllGiveNull l r (ok e) = GivesNull l r e
  AllGiveNull l r (err c) = Unit

  null_pair :
      (l r : Eval) (f : Value → Value → Outcome Value)
      → GivesNull l r (eval_pair calls l r (null_or calls f))
  null_pair l r f = pair-GivesNull l r (null_or calls f) (null_or-null f)

  compare_pair :
      (l r : Eval) (pred : Ordering → Bool)
      → GivesNull l r (eval_pair calls l r λ lv rv. done (bool3_value (sql_cmp floats pred lv rv)))
  compare_pair l r pred =
      pair-GivesNull l r (λ lv rv. done (bool3_value (sql_cmp floats pred lv rv)))
        λ lv rv h. ap (λ b. done (bool3_value b)) (sql_cmp-null pred lv rv h) ∙ unknown_is_null

  like-AllGiveNull :
      (negate : Bool) (re : Expr) (l r : Eval) → AllGiveNull l r (compile_like calls negate re l r)
  unfolding compile_like eval_like AllGiveNull
  like-AllGiveNull negate re l r = pattern (fixed_pattern calls re)
    where
      matched :
          (m : Result (Bytes → Bool))
          → AllGiveNull l r (m >>= λ matches. ok (eval_like calls (some matches) negate l r))
      matched (err c) = tt
      matched (ok matches) = null_pair l r _

      pattern :
          (fixed : Option Bytes)
          → AllGiveNull l r (elim fixed [
            | none ↦ ok (eval_like calls none negate l r)
            | some p ↦
                like_regexp calls p >>= λ matches. ok (eval_like calls (some matches) negate l r)
          ])
      pattern none = null_pair l r _
      pattern (some p) = matched (like_regexp calls p)

  binary-AllGiveNull :
      (op : BinaryOp) (kind : Kind) (re : Expr) (l r : Eval)
      → is_strict op ≡ true
      → AllGiveNull l r (compile_binary calls op kind re l r)
  unfolding compile_binary comparison AllGiveNull sql_eq sql_ne sql_lt sql_le sql_gt sql_ge
  binary-AllGiveNull (op_arith op) kind re l r h = null_pair l r _
  binary-AllGiveNull (op_json j) kind re l r h = null_pair l r _
  binary-AllGiveNull op_concat kind re l r h = null_pair l r _
  binary-AllGiveNull op_like kind re l r h = like-AllGiveNull false re l r
  binary-AllGiveNull op_not_like kind re l r h = like-AllGiveNull true re l r
  binary-AllGiveNull op_and kind re l r h = ground arith
  binary-AllGiveNull op_or kind re l r h = ground arith
  binary-AllGiveNull (op_compare op_eq) kind re l r h = compare_pair l r (is_eq floats)
  binary-AllGiveNull (op_compare op_ne) kind re l r h = compare_pair l r (λ c. not (is_eq floats c))
  binary-AllGiveNull (op_compare op_lt) kind re l r h = compare_pair l r (is_lt floats)
  binary-AllGiveNull (op_compare op_le) kind re l r h = compare_pair l r (λ c. not (is_gt floats c))
  binary-AllGiveNull (op_compare op_gt) kind re l r h = compare_pair l r (is_gt floats)
  binary-AllGiveNull (op_compare op_ge) kind re l r h = compare_pair l r (λ c. not (is_lt floats c))
  binary-AllGiveNull (op_compare op_is_distinct_from) kind re l r h = ground arith
  binary-AllGiveNull (op_compare op_is_not_distinct_from) kind re l r h = ground arith

  -- A comparison, a JSON operator, LIKE, a concatenation or an arithmetic operator, once compiled, gives
  -- NULL where both operands give values one of which is NULL; IS DISTINCT FROM, AND and OR aside.
  pub binary_null :
      (op : BinaryOp) (kind : Kind) (re : Expr) (l r e : Eval) (cells : List Row)
      (args : List Value) (row : Row) (lv rv : Value)
      → is_strict op ≡ true
      → compile_binary calls op kind re l r ≡ ok e
      → l cells args row ≡ done lv
      → r cells args row ≡ done rv
      → is_null lv || is_null rv ≡ true
      → e cells args row ≡ done null_value
  unfolding AllGiveNull
  binary_null op kind re l r e cells args row lv rv strict compiled el er absent =
      subst (AllGiveNull l r) compiled (binary-AllGiveNull op kind re l r strict) cells args row lv
        rv el er absent
