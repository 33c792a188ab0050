-- ===== src/Parser/Expr/Shape.antt =====
-- Expressions in which precedence and associativity are kept, whatever text they were parsed from
-- (internal/parser/expr.go, the table of binding powers).
use lightsql.Common.{ℕ, ◌+◌, ◌≤◌, Bool, true, false, if◌then◌else◌}
use lightsql.Ast.{
  LiteralKind, lit_true, lit_false, BinaryOp, op_add, op_sub, op_mul, op_div, op_mod, op_exp,
  op_concat, op_and, op_or, op_like, op_not_like, op_is_distinct_from, op_is_not_distinct_from,
  op_json_field, op_json_text, op_json_contains, UnaryOp, op_not, Expr, OptExpr, Exprs, Whens,
  literal, binary, unary, paren, is_null, cast, func_call, in_list, in_query, between, case_expr,
  no_expr, some_expr, no_exprs, item, no_when, when,
}
use lightsql.Parser.Infix.{
  bp_or, bp_and, bp_not, bp_is, bp_compare, bp_range, bp_add, bp_json, bp_mul, bp_exp, bp_unary,
}

-- PostgreSQL's precedence, by operator.
abbrev pub op_bp : BinaryOp → ℕ
op_bp op_or = bp_or
op_bp op_and = bp_and
op_bp op_is_distinct_from = bp_is
op_bp op_is_not_distinct_from = bp_is
op_bp op_like = bp_range
op_bp op_not_like = bp_range
op_bp op_add = bp_add
op_bp op_sub = bp_add
op_bp op_concat = bp_add
op_bp op_json_field = bp_json
op_bp op_json_text = bp_json
op_bp op_json_contains = bp_json
op_bp op_mul = bp_mul
op_bp op_div = bp_mul
op_bp op_mod = bp_mul
op_bp op_exp = bp_exp
op_bp _ = bp_compare

abbrev pub unary_bp : UnaryOp → ℕ
unary_bp op_not = bp_not
unary_bp _ = bp_unary

abbrev truth_kind : LiteralKind → Bool
truth_kind lit_true = true
truth_kind lit_false = true
truth_kind _ = false

-- Whether the expression is TRUE or FALSE.
abbrev pub is_truth : {Q : Type 0} → Expr Q → Bool
is_truth (literal k v) = truth_kind k
is_truth _ = false

-- Whether the expression may have been written IS TRUE, IS FALSE or with NOT, which nothing on its
-- right belongs to.
abbrev pub is_test : {Q : Type 0} → BinaryOp → Expr Q → Bool
is_test op_is_distinct_from y = is_truth y
is_test op_is_not_distinct_from y = is_truth y
is_test _ y = false

-- No operator that is open at the left end binds less tightly than `m`.
abbrev pub Left : {Q : Type 0} → ℕ → Expr Q → Type 0
Left m (binary op x y) = (m ≤ op_bp op) × Left m x
Left m (is_null x negate) = (m ≤ bp_is) × Left m x
Left m (in_list x negate es) = (m ≤ bp_range) × Left m x
Left m (in_query x negate q) = (m ≤ bp_range) × Left m x
Left m (between x negate lo hi) = (m ≤ bp_range) × Left m x
Left m _ = Unit

-- No operator that is open at the right end binds less tightly than `m`.
abbrev pub Right : {Q : Type 0} → ℕ → Expr Q → Type 0
Right m (binary op x y) =
    let deep = (m ≤ op_bp op) × Right m y in if is_test op y then Unit else deep
Right m (unary op x) = (m ≤ unary_bp op) × Right m x
Right m (between x negate lo hi) = (m ≤ bp_range) × Right m hi
Right m _ = Unit

-- Each operand binds its operators at least as tightly as the operator that it belongs to, and those of a
-- right operand bind more tightly, all the way down.
abbrev mutual
  pub Shaped : {Q : Type 0} → Expr Q → Type 0
  Shaped (binary op x y) = Right (op_bp op) x × Left (op_bp op + 1) y × Shaped x × Shaped y
  Shaped (unary op x) = Left (unary_bp op) x × Shaped x
  Shaped (paren x) = Shaped x
  Shaped (is_null x negate) = Right bp_is x × Shaped x
  Shaped (cast x typ) = Shaped x
  Shaped (func_call word is_distinct is_star es) = ShapedAll es
  Shaped (in_list x negate es) = Right bp_range x × Shaped x × ShapedAll es
  Shaped (in_query x negate q) = Right bp_range x × Shaped x
  Shaped (between x negate lo hi) =
      Right bp_range x
      × Left (bp_range + 1) lo
      × Left (bp_range + 1) hi
      × Shaped x
      × Shaped lo
      × Shaped hi
  Shaped (case_expr operand ws els) = ShapedOpt operand × ShapedWhens ws × ShapedOpt els
  Shaped _ = Unit

  pub ShapedOpt : {Q : Type 0} → OptExpr Q → Type 0
  ShapedOpt no_expr = Unit
  ShapedOpt (some_expr x) = Shaped x

  pub ShapedAll : {Q : Type 0} → Exprs Q → Type 0
  ShapedAll no_exprs = Unit
  ShapedAll (item e es) = Shaped e × ShapedAll es

  pub ShapedWhens : {Q : Type 0} → Whens Q → Type 0
  ShapedWhens no_when = Unit
  ShapedWhens (when c v ws) = Shaped c × Shaped v × ShapedWhens ws
