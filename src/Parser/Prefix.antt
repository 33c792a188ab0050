-- ===== src/Parser/Prefix.antt =====
-- internal/parser/expr.go: the expressions that begin with their first token, and parsePrefix.
pub mod Ends
use lightsql.Common.{
  ℕ, zero, suc, ◌+◌, Bool, true, false, ◌&&◌, ◌||◌, not, List, [], ◌∷◌, ◌++◌, Option, none, some,
  if◌then◌else◌, ltb, Bytes, bytes, bytes_eq, syntax_error,
}
use lightsql.Token
use lightsql.Token.{
  Kind, ident, quoted_ident, string, number, lparen, rparen, comma, dot, double_colon, plus, minus,
  star, slash, percent, caret, concat, arrow, long_arrow, contains, eq, not_eq, less, less_eq,
  greater, greater_eq, kw_and, kw_or, kw_not, kw_is, kw_in, kw_between, kw_like, kw_null, kw_true,
  kw_false, kw_distinct, kw_from, kw_select, kw_case, kw_when, kw_then, kw_else, kw_end, kw_exists,
  kw_cast, kw_as, kw_current_timestamp, kw_local_timestamp, kw_current_date, kw_current_time,
  kw_local_time,
}
use lightsql.Ast
use lightsql.Ast.{
  Name, no_name, TypeName, LiteralKind, lit_string, lit_number, lit_true, lit_false, lit_null,
  BinaryOp, op_add, op_sub, op_mul, op_div, op_mod, op_exp, op_concat, op_eq, op_ne, op_lt, op_le,
  op_gt, op_ge, op_and, op_or, op_like, op_not_like, op_is_distinct_from, op_is_not_distinct_from,
  op_json_field, op_json_text, op_json_contains, UnaryOp, op_neg, op_plus, op_not, CurrentTimeKind,
  current_timestamp, local_timestamp, current_date, current_time, local_time, Expr, OptExpr, Exprs,
  Whens, literal, column_ref, binary, unary, paren, is_null, cast, func_call, in_list, in_query,
  between, case_expr, exists, subquery, current_time_expr, no_expr, some_expr, no_exprs, item,
  no_when, when,
}
use lightsql.Parser.TypeName.{parse_type_name}
use lightsql.Parser.{
  Stream, Parsed, Parser, parsed, failed, starved, ◌>>=◌, cur_kind, cur_val, cur_ord, next,
  peek_kind, at, accept, unexpected, expect, at_word, expect_word, name, expect_name,
}
use lightsql.Parser.Infix.{bp_none, bp_not, bp_unary, bool_literal, parse_exprs}

-- `currentTimeKind`
unfoldable pub current_time_kind : Kind → CurrentTimeKind
current_time_kind kw_local_timestamp = local_timestamp
current_time_kind kw_current_date = current_date
current_time_kind kw_current_time = current_time
current_time_kind kw_local_time = local_time
current_time_kind _ = current_timestamp

module _ {Q : Type 0} (expr : ℕ → Parser (Expr Q)) where
  module _ (query : Parser Q) where
    -- `parseParen`
    unfoldable pub parse_paren : Parser (Expr Q)
    unfolding at expect
    parse_paren ts =
        let rest = next ts in
        if at kw_select rest
        then (query rest >>= λ q ts1. expect rparen ts1 >>= λ _ ts2. parsed (subquery q) ts2)
        else (expr bp_none rest >>= λ x ts1. expect rparen ts1 >>= λ _ ts2. parsed (paren x) ts2)

    -- `parseParenSelect`
    unfoldable pub parse_paren_select : Parser Q
    unfolding expect
    parse_paren_select ts = expect lparen ts >>= λ _ ts1.
        query ts1 >>= λ q ts2. expect rparen ts2 >>= λ _ ts3. parsed q ts3

  -- The loop of parseCase.
  unfoldable pub parse_whens : ℕ → Parser (Whens Q)
  unfolding at expect
  parse_whens zero ts = starved
  parse_whens (suc f) ts =
      let rest = parse_whens f in
      if at kw_when ts
      then (expr bp_none (next ts) >>= λ cond ts1. expect kw_then ts1 >>= λ _ ts2.
          expr bp_none ts2 >>= λ val ts3. rest ts3 >>= λ ws ts4. parsed (when cond val ws) ts4)
      else parsed no_when ts

  -- The operand of a CASE, unless WHEN follows.
  unfoldable pub parse_operand : Parser (OptExpr Q)
  unfolding at
  parse_operand ts =
      if at kw_end ts
      then unexpected
      else if at kw_when ts
      then parsed no_expr ts
      else (expr bp_none ts >>= λ x ts1. parsed (some_expr x) ts1)

  unfoldable pub parse_else : Parser (OptExpr Q)
  unfolding at
  parse_else ts =
      if at kw_else ts
      then (expr bp_none (next ts) >>= λ x ts1. parsed (some_expr x) ts1)
      else parsed no_expr ts

  abbrev pub end_case : OptExpr Q → Whens Q → Parser (Expr Q)
  end_case operand no_when ts = unexpected
  end_case operand (when c v ws) ts = parse_else ts >>= λ els ts1.
      expect kw_end ts1 >>= λ _ ts2. parsed (case_expr operand (when c v ws) els) ts2

  -- `parseCase`
  unfoldable pub parse_case : ℕ → Parser (Expr Q)
  unfolding parse_operand parse_whens parse_else expect
  parse_case f ts = parse_operand (next ts) >>= λ operand ts1.
      parse_whens f ts1 >>= λ ws ts2. end_case operand ws ts2

  -- `parseCastCall`
  unfoldable pub parse_cast_call : ℕ → Parser (Expr Q)
  unfolding expect
  parse_cast_call f ts = expect lparen (next ts) >>= λ _ ts1. expr bp_none ts1 >>= λ x ts2.
      expect kw_as ts2 >>= λ _ ts3.
      parse_type_name f ts3 >>= λ typ ts4. expect rparen ts4 >>= λ _ ts5. parsed (cast x typ) ts5

  -- What stands between the parentheses of a call, by its first token.
  unfoldable pub call_args : Kind → ℕ → Name → Parser (Expr Q)
  unfolding accept parse_exprs
  call_args star f word ts = parsed (func_call word false true no_exprs) (next ts)
  call_args rparen f word ts = parsed (func_call word false false no_exprs) ts
  call_args _ f word ts = accept kw_distinct ts >>= λ is_distinct ts1.
      parse_exprs expr f ts1 >>= λ es ts2. parsed (func_call word is_distinct false es) ts2

  -- `parseCall`
  unfoldable pub parse_call : ℕ → Name → Parser (Expr Q)
  unfolding call_args expect
  parse_call f word ts = call_args (cur_kind (next ts)) f word (next ts) >>= λ call ts1.
      expect rparen ts1 >>= λ _ ts2. parsed call ts2

  -- Behind a dot: a star, or what `named` makes of a name.
  unfoldable pub after_dot : Kind → Name → (Name → Parser (Expr Q)) → Parser (Expr Q)
  unfolding expect_name
  after_dot star table named ts = parsed (Ast.star table) (next ts)
  after_dot _ table named ts = expect_name ts >>= λ word ts1. named word ts1

  -- A second and a third part of a name, where a dot follows.
  unfoldable pub third_part : Name → Name → Parser (Expr Q)
  unfolding accept after_dot
  third_part first second ts = accept dot ts >>= λ more ts1.
      let rest =
        after_dot (cur_kind ts1) second (λ third ts2. parsed (column_ref first second third) ts2)
          ts1 in
      if more then rest else parsed (column_ref no_name first second) ts1

  -- `parseIdentExpr`
  unfoldable pub parse_ident_expr : ℕ → Parser (Expr Q)
  unfolding at accept after_dot parse_call third_part
  parse_ident_expr f ts = name ts >>= λ first ts1.
      let call = parse_call f first ts1 in
      let column : Parsed (Expr Q) = accept dot ts1 >>= λ more ts2.
      let rest = after_dot (cur_kind ts2) first (third_part first) ts2 in
      if more then rest else parsed (column_ref no_name no_name first) ts2 in
      if at lparen ts1 then call else column

  -- A literal that is its token's value.
  abbrev valued : LiteralKind → Parser (Expr Q)
  valued k ts = parsed (literal k (cur_val ts)) (next ts)

  abbrev timed : Parser (Expr Q)
  timed ts = parsed (current_time_expr (current_time_kind (cur_kind ts))) (next ts)

  abbrev pub signed : UnaryOp → ℕ → Parser (Expr Q)
  signed op bp ts = expr bp (next ts) >>= λ x ts1. parsed (unary op x) ts1

  -- The cases of parsePrefix.
  unfoldable pub prefix_form : Kind → Parser Q → ℕ → Parser (Expr Q)
  unfolding parse_paren parse_paren_select parse_case parse_cast_call parse_ident_expr
      current_time_kind
  prefix_form kw_not query f ts = signed op_not bp_not ts
  prefix_form minus query f ts = signed op_neg bp_unary ts
  prefix_form plus query f ts = signed op_plus bp_unary ts
  prefix_form string query f ts = valued lit_string ts
  prefix_form number query f ts = valued lit_number ts
  prefix_form kw_true query f ts = bool_literal expr ts
  prefix_form kw_false query f ts = bool_literal expr ts
  prefix_form kw_null query f ts = parsed (literal lit_null []) (next ts)
  prefix_form Token.param query f ts = parsed (Ast.param (cur_ord ts)) (next ts)
  prefix_form star query f ts = parsed (Ast.star no_name) (next ts)
  prefix_form lparen query f ts = parse_paren query ts
  prefix_form kw_case query f ts = parse_case f ts
  prefix_form kw_exists query f ts =
      parse_paren_select query (next ts) >>= λ q ts1. parsed (exists q) ts1
  prefix_form kw_cast query f ts = parse_cast_call f ts
  prefix_form kw_current_timestamp query f ts = timed ts
  prefix_form kw_local_timestamp query f ts = timed ts
  prefix_form kw_current_date query f ts = timed ts
  prefix_form kw_current_time query f ts = timed ts
  prefix_form kw_local_time query f ts = timed ts
  prefix_form ident query f ts = parse_ident_expr f ts
  prefix_form quoted_ident query f ts = parse_ident_expr f ts
  prefix_form _ query f ts = unexpected

  -- `parsePrefix`
  unfoldable pub parse_prefix : Parser Q → ℕ → Parser (Expr Q)
  unfolding prefix_form
  parse_prefix query f ts = prefix_form (cur_kind ts) query f ts
