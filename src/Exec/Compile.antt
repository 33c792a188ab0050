-- ===== src/Exec/Compile.antt =====
-- internal/exec/expr.go: compile, which turns a bound expression of internal/plan/plan.go into a closure.
-- What an uncorrelated subquery gives is kept by the closure; it is the same for every row, and so it is
-- computed anew here.
pub mod Logic
pub mod Coalesce
pub mod Nulls
pub mod Integers
pub mod Like
use lightsql.Common.{
  ℕ, suc, ◌-◌, Bool, true, false, ◌&&◌, ◌||◌, not, List, [], ◌∷◌, ◌++◌, Option, none, some, leb,
  ltb, ◌==◌, if◌then◌else◌, Bytes, length, get_elem?, take, Code, syntax_error,
  cardinality_violation, invalid_text_for_type, internal_error, Result, ok, err, ◌>>=◌,
}
use lightsql.Types.Bool3.{Bool3, not3}
use lightsql.Types.Value.{Value, Kind, kind_eq}
use lightsql.Types.Value
use lightsql.Types.Compare.{
  is_null, null_value, bool_value, text_of, bool3_value, sql_eq, sql_ne, sql_lt, sql_le, sql_gt,
  sql_ge, is_distinct_from,
}
use lightsql.Exec.Eval.{
  Row, Outcome, done, failed, panics, ◌>>◌, of_result, or_panics, Eval, Piece, literal, any_run,
  any_one, Scalar, Calls, ArithOp, eval_pair, null_or, arith_value, not_value, neg_value, eval_and,
  eval_or, in_result, eval_coalesce, eval_case, eval_call, eval_in_list,
}
use lightsql.Exec.Eval
use lightsql.Exec.Expr.{
  Comparison, op_eq, op_ne, op_lt, op_le, op_gt, op_ge, op_is_distinct_from,
  op_is_not_distinct_from, JsonOp, op_json_field, op_json_text, op_json_contains, BinaryOp,
  op_arith, op_compare, op_json, op_concat, op_and, op_or, op_like, op_not_like, UnaryOp, op_neg,
  op_plus, op_not, Expr, const, outer_ref, column, param, is_null_expr, cast_expr, case_expr,
  func_call, coalesce, now_expr, scalar_subquery, exists_subquery, in_subquery, in_list, unary,
  binary, Exprs, no_more, then_expr, Arms, no_arm, when_then, like_pieces,
}
use lightsql.Exec.Subquery.{drain_column, scalar_of, any_row, differs}

module _ (calls : Calls) where
  open calls use {floats}

  -- `likeRegexp`
  unfoldable pub like_regexp : Bytes → Result (Bytes → Bool)
  unfolding like_pieces
  like_regexp pattern = elim (calls.compile_pattern (like_pieces [] pattern)) [
    | none ↦ err invalid_text_for_type
    | some matches ↦ ok matches
  ]

  -- The rows that a correlated subquery reads: those of the enclosing queries, and its own.
  abbrev cells_for : Bool → List Row → Row → List Row
  cells_for true cells row = row ∷ cells
  cells_for false cells row = cells

  -- `comparisons`
  unfoldable pub comparison : Comparison → Value → Value → Bool3
  comparison op_eq = sql_eq floats
  comparison op_ne = sql_ne floats
  comparison op_lt = sql_lt floats
  comparison op_le = sql_le floats
  comparison op_gt = sql_gt floats
  comparison op_ge = sql_ge floats
  comparison op_is_distinct_from = is_distinct_from floats
  comparison op_is_not_distinct_from = λ a b. not3 (is_distinct_from floats a b)

  unfoldable pub json_value : JsonOp → Value → Value → Value
  json_value op_json_field l r = calls.json_field l r
  json_value op_json_text l r = calls.json_text l r
  json_value op_json_contains l r = bool3_value (calls.json_contains l r)

  abbrev fixed_pattern : Expr → Option Bytes
  fixed_pattern (const v) = if is_null v then none else some v.s
  fixed_pattern _ = none

  -- The closure of `compileLike`, where `fixed` is a literal pattern.
  unfoldable pub eval_like : Option (Bytes → Bool) → Bool → Eval → Eval → Eval
  unfolding null_or like_regexp
  eval_like (some matches) negate l r =
      eval_pair calls l r (null_or calls λ lv rv. done (bool_value (differs (matches lv.s) negate)))
  eval_like none negate l r = eval_pair calls l r (
      null_or calls λ lv rv. of_result (like_regexp rv.s) >> λ matches.
      done (bool_value (differs (matches lv.s) negate)))

  -- `compileLike`
  unfoldable pub compile_like : Bool → Expr → Eval → Eval → Result Eval
  unfolding eval_like
  compile_like negate re l r = elim (fixed_pattern re) [
    | none ↦ ok (eval_like none negate l r)
    | some pattern ↦ like_regexp pattern >>= λ matches. ok (eval_like (some matches) negate l r)
  ]

  -- `compileUnary`, from its operand on.
  unfoldable pub compile_unary : UnaryOp → Eval → Eval
  unfolding not_value neg_value
  compile_unary op_plus x cells args row = x cells args row
  compile_unary op_not x cells args row = x cells args row >> λ v. done (not_value calls v)
  compile_unary op_neg x cells args row = x cells args row >> λ v. neg_value calls v

  -- `compileBinary`, from its operands on.
  unfoldable pub compile_binary : BinaryOp → Kind → Expr → Eval → Eval → Result Eval
  unfolding eval_and eval_or null_or arith_value comparison json_value compile_like
  compile_binary op_and kind re l r = ok (eval_and calls l r)
  compile_binary op_or kind re l r = ok (eval_or calls l r)
  compile_binary (op_compare c) kind re l r =
      ok (eval_pair calls l r λ lv rv. done (bool3_value (comparison c lv rv)))
  compile_binary (op_json j) kind re l r =
      ok (eval_pair calls l r (null_or calls λ lv rv. done (json_value j lv rv)))
  compile_binary op_like kind re l r = compile_like false re l r
  compile_binary op_not_like kind re l r = compile_like true re l r
  compile_binary op_concat kind re l r =
      ok (eval_pair calls l r (null_or calls λ lv rv. done (text_of (lv.s ++ rv.s))))
  compile_binary (op_arith op) kind re l r =
      ok (eval_pair calls l r (null_or calls (arith_value calls op kind)))

  -- The case of an OuterRef: the row of an enclosing query.
  unfoldable pub outer_value : ℕ → ℕ → Eval
  outer_value level ordinal cells args row = elim (get_elem? cells level) [
    | none ↦ panics
    | some outer ↦ elim (get_elem? outer ordinal) [ none ↦ done null_value | some v ↦ done v ]
  ]

  -- The case of a Param.
  unfoldable pub param_value : ℕ → Kind → Eval
  param_value ord want cells args row =
      if ord == 0 then failed syntax_error else elim (get_elem? args (ord - 1)) [
        | none ↦ failed syntax_error
        | some v ↦
            if kind_eq want Value.null || kind_eq v.k want
            then done v
            else of_result (calls.cast v want)
      ]

  abbrev first_eval : List Eval → Option Eval
  first_eval [] = none
  first_eval (e ∷ es) = some e

  -- `compile`, where `depth` queries enclose the expression.
  unfoldable mutual
    unfolding compile_unary compile_binary outer_value param_value eval_coalesce eval_case eval_call
        eval_in_list in_result scalar_of any_row drain_column

    pub compile : ℕ → Expr → Result Eval
    compile depth (const v) = ok λ cells args row. done v
    compile depth (outer_ref level ordinal) =
        if ltb level depth then ok (outer_value level ordinal) else err internal_error
    compile depth (column i) = ok λ cells args row. or_panics (get_elem? row i)
    compile depth (param ord want) = ok (param_value ord want)
    compile depth (is_null_expr x negate) = compile depth x >>= λ ev.
        ok
          λ cells args row. ev cells args row >> λ v. done (bool_value (differs (is_null v) negate))
    compile depth (cast_expr x want) = compile depth x >>= λ ev.
        ok λ cells args row. ev cells args row >> λ v. of_result (calls.cast v want)
    compile depth (case_expr arms els) = compile_arms depth arms >>= λ as_evals.
        compile_all depth els >>= λ else_evals.
        ok (eval_case calls as_evals (first_eval else_evals))
    compile depth (func_call name es) =
        let arg_evals = compile_all depth es in
        elim (calls.lookup_scalar name) [
          | none ↦ err internal_error
          | some f ↦ arg_evals >>= λ evs. ok (eval_call calls f evs)
        ]
    compile depth (coalesce es) = compile_all depth es >>= λ evs. ok (eval_coalesce calls evs)
    compile depth (now_expr kind) = ok λ cells args row. done (calls.now kind)
    compile depth (scalar_subquery sub correlated) =
        ok λ cells args row. scalar_of (calls.run sub (cells_for correlated cells row) args)
    compile depth (exists_subquery sub negate correlated) = ok λ cells args row.
        any_row (calls.run sub (cells_for correlated cells row) args) >> λ found.
        done (bool_value (differs found negate))
    compile depth (in_subquery x sub negate true) = compile depth x >>= λ ev. ok λ cells args row.
        ev cells args row >> λ xv. drain_column none (calls.run sub (row ∷ cells) args) >> λ vals.
        done (in_result calls xv vals negate)
    compile depth (in_subquery x sub negate false) = compile depth x >>= λ ev. ok λ cells args row.
        drain_column none (calls.run sub cells args) >> λ vals.
        ev cells args row >> λ xv. done (in_result calls xv vals negate)
    compile depth (in_list x es negate) = compile depth x >>= λ ev.
        compile_all depth es >>= λ evs. ok (eval_in_list calls ev evs negate)
    compile depth (unary op x) = compile depth x >>= λ ev. ok (compile_unary op ev)
    compile depth (binary op x y kind) =
        compile depth x >>= λ l. compile depth y >>= λ r. compile_binary op kind y l r

    pub compile_all : ℕ → Exprs → Result (List Eval)
    compile_all depth no_more = ok []
    compile_all depth (then_expr e es) =
        compile depth e >>= λ ev. compile_all depth es >>= λ evs. ok (ev ∷ evs)

    pub compile_arms : ℕ → Arms → Result (List (Eval × Eval))
    compile_arms depth no_arm = ok []
    compile_arms depth (when_then cond value arms) = compile depth cond >>= λ c.
        compile depth value >>= λ v. compile_arms depth arms >>= λ evs. ok ((c, v) ∷ evs)
