-- ===== src/Parser/Infix.antt =====
-- internal/parser/expr.go: binding powers and the infix forms. A production takes, as a function, the call of parseExpr that it
-- makes; parseQuery is a parameter. What a loop may still do is bounded by fuel.
pub mod Ends
use lightsql.Common.{
  ℕ, zero, suc, ◌+◌, Bool, true, false, ◌&&◌, ◌||◌, not, List, [], ◌∷◌, ◌++◌, Option, none, some,
  if◌then◌else◌, ltb, Bytes, bytes, bytes_eq, syntax_error,
}
use lightsql.Token
use lightsql.Token.{
  Kind, ident, quoted_ident, string, number, lparen, rparen, comma, dot, double_colon, plus, minus,
  star, slash, percent, caret, concat, arrow, long_arrow, contains, eq, not_eq, less, less_eq,
  greater, greater_eq, kw_and, kw_or, kw_not, kw_is, kw_in, kw_between, kw_like, kw_null, kw_true,
  kw_false, kw_distinct, kw_from, kw_select, kw_case, kw_when, kw_then, kw_else, kw_end, kw_exists,
  kw_cast, kw_as, kw_current_timestamp, kw_local_timestamp, kw_current_date, kw_current_time,
  kw_local_time,
}
use lightsql.Ast
use lightsql.Ast.{
  Name, no_name, TypeName, LiteralKind, lit_string, lit_number, lit_true, lit_false, lit_null,
  BinaryOp, op_add, op_sub, op_mul, op_div, op_mod, op_exp, op_concat, op_eq, op_ne, op_lt, op_le,
  op_gt, op_ge, op_and, op_or, op_like, op_not_like, op_is_distinct_from, op_is_not_distinct_from,
  op_json_field, op_json_text, op_json_contains, UnaryOp, op_neg, op_plus, op_not, CurrentTimeKind,
  current_timestamp, local_timestamp, current_date, current_time, local_time, Expr, OptExpr, Exprs,
  Whens, literal, column_ref, binary, unary, paren, is_null, cast, func_call, in_list, in_query,
  between, case_expr, exists, subquery, current_time_expr, no_expr, some_expr, no_exprs, item,
  no_when, when,
}
use lightsql.Parser.TypeName.{parse_type_name}
use lightsql.Parser.{
  Stream, Parsed, Parser, parsed, failed, starved, ◌>>=◌, cur_kind, cur_val, next, peek_kind, at,
  accept, unexpected, expect, at_word, expect_word, name, expect_name,
}

-- The binding powers.
abbrev pub bp_none : ℕ
bp_none = 0

abbrev pub bp_or : ℕ
bp_or = 1

abbrev pub bp_and : ℕ
bp_and = 2

abbrev pub bp_not : ℕ
bp_not = 3

abbrev pub bp_is : ℕ
bp_is = 4

abbrev pub bp_compare : ℕ
bp_compare = 5

abbrev pub bp_range : ℕ
bp_range = 6

abbrev pub bp_add : ℕ
bp_add = 7

abbrev pub bp_json : ℕ
bp_json = 8

abbrev pub bp_mul : ℕ
bp_mul = 9

abbrev pub bp_exp : ℕ
bp_exp = 10

abbrev pub bp_unary : ℕ
bp_unary = 11

abbrev pub bp_cast : ℕ
bp_cast = 12

-- `infixOps`
unfoldable pub infix_ops : Kind → Option (BinaryOp × ℕ)
infix_ops kw_or = some (op_or, bp_or)
infix_ops kw_and = some (op_and, bp_and)
infix_ops eq = some (op_eq, bp_compare)
infix_ops not_eq = some (op_ne, bp_compare)
infix_ops less = some (op_lt, bp_compare)
infix_ops less_eq = some (op_le, bp_compare)
infix_ops greater = some (op_gt, bp_compare)
infix_ops greater_eq = some (op_ge, bp_compare)
infix_ops plus = some (op_add, bp_add)
infix_ops minus = some (op_sub, bp_add)
infix_ops star = some (op_mul, bp_mul)
infix_ops slash = some (op_div, bp_mul)
infix_ops percent = some (op_mod, bp_mul)
infix_ops caret = some (op_exp, bp_exp)
infix_ops concat = some (op_concat, bp_add)
infix_ops arrow = some (op_json_field, bp_json)
infix_ops long_arrow = some (op_json_text, bp_json)
infix_ops contains = some (op_json_contains, bp_json)
infix_ops _ = none

-- What parseInfix finds at its token: the cases of its switch, and an operator of the table.
pub data Infix : Type 0 where
  cast_mark is_mark : Infix
  range_mark : (negate : Bool) → Infix
  operator : BinaryOp → ℕ → Infix
  no_infix : Infix

abbrev pub table_entry : Option (BinaryOp × ℕ) → Infix
table_entry none = no_infix
table_entry (some (op, bp)) = operator op bp

-- NOT before IN, BETWEEN or LIKE.
abbrev pub negated_range : Kind → Infix
negated_range kw_in = range_mark true
negated_range kw_between = range_mark true
negated_range kw_like = range_mark true
negated_range _ = no_infix

unfoldable pub infix_form : Kind → Kind → Infix
unfolding infix_ops
infix_form double_colon following = cast_mark
infix_form kw_is following = is_mark
infix_form kw_in following = range_mark false
infix_form kw_between following = range_mark false
infix_form kw_like following = range_mark false
infix_form kw_not following = negated_range following
infix_form k following = table_entry (infix_ops k)

unfoldable pub infix_at : Stream → Infix
unfolding infix_form
infix_at ts = infix_form (cur_kind ts) (peek_kind ts)

-- Whether the infix form is left to the caller.
unfoldable pub looser : ℕ → Infix → Bool
looser min cast_mark = ltb bp_cast min
looser min is_mark = ltb bp_is min
looser min (range_mark negate) = ltb bp_range min
looser min (operator op bp) = ltb bp min
looser min no_infix = true

unfoldable pub truth_kind : Kind → LiteralKind
truth_kind kw_false = lit_false
truth_kind _ = lit_true

module _ {Q : Type 0} (expr : ℕ → Parser (Expr Q)) where
  -- `boolLiteral`, at TRUE or FALSE
  abbrev pub bool_literal : Parser (Expr Q)
  bool_literal ts = parsed (literal (truth_kind (cur_kind ts)) []) (next ts)

  -- IS or IS NOT DISTINCT FROM, or a test against a truth value.
  abbrev pub distinct_op : Bool → BinaryOp
  distinct_op true = op_is_distinct_from
  distinct_op false = op_is_not_distinct_from

  abbrev pub truth_test : Bool → Expr Q → Parser (Expr Q)
  truth_test negate lhs ts =
      bool_literal ts >>= λ lit ts1. parsed (binary (distinct_op negate) lhs lit) ts1

  -- What follows IS or IS NOT, by its first token.
  unfoldable pub is_form : Kind → Bool → Expr Q → Parser (Expr Q)
  unfolding expect
  is_form kw_null negate lhs ts = parsed (is_null lhs negate) (next ts)
  is_form kw_true negate lhs ts = truth_test negate lhs ts
  is_form kw_false negate lhs ts = truth_test negate lhs ts
  is_form kw_distinct negate lhs ts = expect kw_from (next ts) >>= λ _ ts1.
      expr (bp_is + 1) ts1 >>= λ rhs ts2. parsed (binary (distinct_op (not negate)) lhs rhs) ts2
  is_form _ negate lhs ts = unexpected

  -- `parseIs`
  unfoldable pub parse_is : Expr Q → Parser (Expr Q)
  unfolding accept is_form
  parse_is lhs ts = accept kw_not (next ts) >>= λ negate ts1. is_form (cur_kind ts1) negate lhs ts1

  -- A list of expressions between commas.
  unfoldable pub parse_exprs : ℕ → Parser (Exprs Q)
  unfolding accept
  parse_exprs zero ts = starved
  parse_exprs (suc f) ts =
      let rest = parse_exprs f in
      expr bp_none ts >>= λ e ts1. accept comma ts1 >>= λ more ts2.
      if more then (rest ts2 >>= λ es ts3. parsed (item e es) ts3) else parsed (item e no_exprs) ts2

  abbrev pub like_op : Bool → BinaryOp
  like_op true = op_not_like
  like_op false = op_like

  module _ (query : Parser Q) where
    -- What stands between the parentheses of IN.
    unfoldable pub in_operand : ℕ → Expr Q → Bool → Parser (Expr Q)
    unfolding at parse_exprs
    in_operand f lhs negate ts =
        if at kw_select ts
        then (query ts >>= λ q ts1. parsed (in_query lhs negate q) ts1)
        else (parse_exprs f ts >>= λ es ts1. parsed (in_list lhs negate es) ts1)

    -- IN, BETWEEN and LIKE, by the token.
    unfoldable pub range_form : Kind → ℕ → Expr Q → Bool → Parser (Expr Q)
    unfolding expect in_operand
    range_form kw_like f lhs negate ts =
        expr (bp_range + 1) (next ts) >>= λ rhs ts1. parsed (binary (like_op negate) lhs rhs) ts1
    range_form kw_between f lhs negate ts = expr (bp_range + 1) (next ts) >>= λ lo ts1.
        expect kw_and ts1 >>= λ _ ts2.
        expr (bp_range + 1) ts2 >>= λ hi ts3. parsed (between lhs negate lo hi) ts3
    range_form _ f lhs negate ts = expect lparen (next ts) >>= λ _ ts1.
        in_operand f lhs negate ts1 >>= λ e ts2. expect rparen ts2 >>= λ _ ts3. parsed e ts3

    -- `parseRange`
    unfoldable pub parse_range : ℕ → Expr Q → Bool → Parser (Expr Q)
    unfolding range_form
    parse_range f lhs negate ts = range_form (cur_kind ts) f lhs negate ts

    -- One round of parseInfix, at an infix form that is not left to the caller.
    unfoldable pub parse_step : ℕ → Infix → Expr Q → Parser (Expr Q)
    unfolding parse_is parse_range
    parse_step f cast_mark lhs ts =
        parse_type_name f (next ts) >>= λ typ ts1. parsed (cast lhs typ) ts1
    parse_step f is_mark lhs ts = parse_is lhs ts
    parse_step f (range_mark false) lhs ts = parse_range f lhs false ts
    parse_step f (range_mark true) lhs ts = parse_range f lhs true (next ts)
    parse_step f (operator op bp) lhs ts =
        expr (bp + 1) (next ts) >>= λ rhs ts1. parsed (binary op lhs rhs) ts1
    parse_step f no_infix lhs ts = parsed lhs ts

    -- `parseInfix`
    unfoldable pub parse_infix : ℕ → Expr Q → ℕ → Parser (Expr Q)
    unfolding parse_step infix_at looser
    parse_infix zero lhs min ts = starved
    parse_infix (suc f) lhs min ts =
        let more = parse_step f (infix_at ts) lhs ts >>= λ e ts1. parse_infix f e min ts1 in
        if looser min (infix_at ts) then parsed lhs ts else more
