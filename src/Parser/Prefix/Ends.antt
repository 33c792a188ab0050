-- ===== src/Parser/Prefix/Ends.antt =====
-- The forms that begin an expression come to an end (internal/parser/expr.go).
use lightsql.Common.{ℕ, zero, suc, ◌<◌, [], ◌∷◌, length, arith}
use lightsql.Token
use lightsql.Token.{
  Kind, ident, quoted_ident, string, number, lparen, rparen, comma, dot, double_colon, plus, minus,
  star, kw_and, kw_not, kw_is, kw_in, kw_between, kw_like, kw_null, kw_true, kw_false, kw_distinct,
  kw_from, kw_select, kw_case, kw_when, kw_then, kw_else, kw_end, kw_exists, kw_cast, kw_as,
  kw_current_timestamp, kw_local_timestamp, kw_current_date, kw_current_time, kw_local_time,
}
use lightsql.Ast.{Name, Expr, OptExpr, Whens, no_when, when}
use lightsql.Parser.{Stream, Parser, cur_kind, next, at, accept, expect_name}
use lightsql.Parser.TypeName.{parse_type_name}
use lightsql.Parser.Infix.{bp_none, bp_not, bp_unary, parse_exprs}
use lightsql.Parser.Prefix.{
  parse_paren, parse_paren_select, parse_whens, parse_operand, parse_else, end_case, parse_case,
  parse_cast_call, call_args, parse_call, after_dot, third_part, parse_ident_expr, prefix_form,
}
use lightsql.Parser.Consumes.{
  Leaves, bind-Leaves, if-Leaves, weaker, length-next, accept-Leaves, expect_name-Leaves,
  parse_type_name-Leaves,
}
use lightsql.Parser.Infix.Ends.{exprs-Leaves, then_expr, then_expect}

module _ {Q : Type 0} (expr : ℕ → Parser (Expr Q)) (query : Parser Q) (top : ℕ)
    (shrinks : (min : ℕ) (ts : Stream) → length ts < top → Leaves (length ts) (expr min ts))
    (query_shrinks : (ts : Stream) → length ts < top → Leaves (suc (length ts)) (query ts)) where
  paren-Leaves :
      (t : Token.Token) (ts : Stream)
      → length ts < top
      → Leaves (suc (length ts)) (parse_paren expr query (t ∷ ts))
  unfolding parse_paren
  paren-Leaves t ts k =
      if-Leaves _ (at kw_select ts) _ _
        (bind-Leaves _ _ (query ts) _ (query_shrinks ts k) λ q ts1 l1.
          then_expect expr query top shrinks query_shrinks _ rparen ts1 _ λ _ ts2 l2. omega arith)
        (then_expr expr query top shrinks query_shrinks _ bp_none ts _ k λ x ts1 l1.
          then_expect expr query top shrinks query_shrinks _ rparen ts1 _ λ _ ts2 l2. omega arith)

  paren_select-Leaves :
      (ts : Stream) → length ts < top → Leaves (suc (length ts)) (parse_paren_select expr query ts)
  unfolding parse_paren_select
  paren_select-Leaves ts k =
      then_expect expr query top shrinks query_shrinks _ lparen ts _ λ _ ts1 l1.
        bind-Leaves _ _ (query ts1) _ (query_shrinks ts1 (omega arith)) λ q ts2 l2.
          then_expect expr query top shrinks query_shrinks _ rparen ts2 _ λ _ ts3 l3. omega arith

  whens-Leaves :
      (f : ℕ) (ts : Stream)
      → length ts < f
      → length ts < top
      → Leaves (suc (length ts)) (parse_whens expr f ts)
  unfolding parse_whens
  whens-Leaves zero ts h k = absurd (omega arith)
  whens-Leaves (suc f) [] h k = omega arith
  whens-Leaves (suc f) (t ∷ ts) h k =
      if-Leaves _ (at kw_when (t ∷ ts)) _ _
        (then_expr expr query top shrinks query_shrinks _ bp_none ts _ (omega arith) λ cond ts1 l1.
          then_expect expr query top shrinks query_shrinks _ kw_then ts1 _ λ _ ts2 l2.
            then_expr expr query top shrinks query_shrinks _ bp_none ts2 _ (omega arith)
              λ val ts3 l3.
                bind-Leaves _ _ (parse_whens expr f ts3) _
                  (whens-Leaves f ts3 (omega arith) (omega arith)) λ ws ts4 l4. omega arith)
        (omega arith)

  operand-Leaves :
      (ts : Stream) → length ts < top → Leaves (suc (length ts)) (parse_operand expr ts)
  unfolding parse_operand
  operand-Leaves ts k = if-Leaves _ (at kw_end ts) _ _ tt (
      if-Leaves _ (at kw_when ts) _ _ (omega arith)
        (then_expr expr query top shrinks query_shrinks _ bp_none ts _ k λ x ts1 l1. omega arith))

  else-Leaves : (ts : Stream) → length ts < top → Leaves (suc (length ts)) (parse_else expr ts)
  unfolding parse_else
  else-Leaves ts k =
      if-Leaves _ (at kw_else ts) _ _
        (then_expr expr query top shrinks query_shrinks _ bp_none (next ts) _
          (omega (arith, length-next ts)) λ x ts1 l1. omega (arith, length-next ts))
        (omega arith)

  case-Leaves :
      (f : ℕ) (t : Token.Token) (ts : Stream)
      → length ts < f
      → length ts < top
      → Leaves (suc (length ts)) (parse_case expr f (t ∷ ts))
  unfolding parse_case
  case-Leaves f t ts h k =
      bind-Leaves _ _ (parse_operand expr ts) _ (operand-Leaves ts k) λ operand ts1 l1.
        bind-Leaves _ _ (parse_whens expr f ts1) _ (whens-Leaves f ts1 (omega arith) (omega arith))
          λ ws ts2 l2. closing operand ws ts2 (omega arith)
    where
      closing :
          (operand : OptExpr Q) (ws : Whens Q) (ts2 : Stream)
          → length ts2 < suc (length ts)
          → Leaves (suc (length ts)) (end_case expr operand ws ts2)
      closing operand no_when ts2 l2 = tt
      closing operand (when c v ws) ts2 l2 =
          bind-Leaves _ _ (parse_else expr ts2) _ (else-Leaves ts2 (omega arith)) λ els ts3 l3.
            then_expect expr query top shrinks query_shrinks _ kw_end ts3 _ λ _ ts4 l4. omega arith

  cast_call-Leaves :
      (f : ℕ) (t : Token.Token) (ts : Stream)
      → length ts < f
      → length ts < top
      → Leaves (suc (length ts)) (parse_cast_call expr f (t ∷ ts))
  unfolding parse_cast_call
  cast_call-Leaves f t ts h k =
      then_expect expr query top shrinks query_shrinks _ lparen ts _ λ _ ts1 l1.
        then_expr expr query top shrinks query_shrinks _ bp_none ts1 _ (omega arith) λ x ts2 l2.
          then_expect expr query top shrinks query_shrinks _ kw_as ts2 _ λ _ ts3 l3.
            bind-Leaves _ _ (parse_type_name f ts3) _ (parse_type_name-Leaves f ts3 (omega arith))
              λ typ ts4 l4.
                then_expect expr query top shrinks query_shrinks _ rparen ts4 _
                  λ _ ts5 l5. omega arith

  call_args-Leaves :
      (k : Kind) (f : ℕ) (word : Name) (ts : Stream)
      → length ts < f
      → length ts < top
      → Leaves (suc (length ts)) (call_args expr k f word ts)
  unfolding call_args
  call_args-Leaves star f word ts h k = length-next ts
  call_args-Leaves rparen f word ts h k = omega arith
  call_args-Leaves _ f word ts h k =
      bind-Leaves _ _ (accept kw_distinct ts) _ (accept-Leaves kw_distinct ts) λ is_distinct ts1 l1.
        bind-Leaves _ _ (parse_exprs expr f ts1) _
          (exprs-Leaves expr query top shrinks query_shrinks f ts1 (omega arith) (omega arith))
          λ es ts2 l2. omega arith

  call-Leaves :
      (f : ℕ) (word : Name) (ts : Stream)
      → length (next ts) < f
      → length (next ts) < top
      → Leaves (suc (length (next ts))) (parse_call expr f word ts)
  unfolding parse_call
  call-Leaves f word ts h k =
      bind-Leaves _ _ (call_args expr (cur_kind (next ts)) f word (next ts)) _
        (call_args-Leaves (cur_kind (next ts)) f word (next ts) h k)
        λ call ts1 l1.
          then_expect expr query top shrinks query_shrinks _ rparen ts1 _ λ _ ts2 l2. omega arith

  after_dot-Leaves :
      (k : Kind) (table : Name) (named : Name → Parser (Expr Q)) (ts : Stream)
      → ((w : Name) (ts1 : Stream) → Leaves (suc (length ts1)) (named w ts1))
      → Leaves (suc (length ts)) (after_dot expr k table named ts)
  unfolding after_dot
  after_dot-Leaves star table named ts h = length-next ts
  after_dot-Leaves _ table named ts h =
      bind-Leaves _ _ (expect_name ts) _ (expect_name-Leaves ts)
        λ w ts1 l1. weaker _ _ (named w ts1) (omega arith) (h w ts1)

  third_part-Leaves :
      (first second : Name) (ts : Stream)
      → Leaves (suc (length ts)) (third_part expr first second ts)
  unfolding third_part
  third_part-Leaves first second ts =
      bind-Leaves _ _ (accept dot ts) _ (accept-Leaves dot ts) λ more ts1 l1.
        if-Leaves _ more _ _
          (weaker _ _ (after_dot expr (cur_kind ts1) second _ ts1) (omega arith)
            (after_dot-Leaves (cur_kind ts1) second _ ts1 λ w ts2. omega arith))
          l1

  ident_expr-Leaves :
      (f : ℕ) (t : Token.Token) (ts : Stream)
      → length ts < f
      → length ts < top
      → Leaves (suc (length ts)) (parse_ident_expr expr f (t ∷ ts))
  unfolding parse_ident_expr
  ident_expr-Leaves f t ts h k =
      if-Leaves _ (at lparen ts) _ _
        (weaker _ _ (parse_call expr f _ ts) (length-next ts)
          (call-Leaves f _ ts (omega (arith, length-next ts)) (omega (arith, length-next ts))))
        (bind-Leaves _ _ (accept dot ts) _ (accept-Leaves dot ts) λ more ts1 l1.
          if-Leaves _ more _ _
            (weaker _ _ (after_dot expr (cur_kind ts1) _ _ ts1) (omega arith)
              (after_dot-Leaves (cur_kind ts1) _ _ ts1 λ w ts2. third_part-Leaves _ w ts2))
            l1)

  pub prefix_form-Leaves :
      (k : Kind) (f : ℕ) (t : Token.Token) (ts : Stream)
      → length ts < f
      → length ts < top
      → Leaves (suc (length ts)) (prefix_form expr k query f (t ∷ ts))
  unfolding prefix_form
  prefix_form-Leaves kw_not f t ts h k =
      then_expr expr query top shrinks query_shrinks _ bp_not ts _ k λ x ts1 l1. omega arith
  prefix_form-Leaves minus f t ts h k =
      then_expr expr query top shrinks query_shrinks _ bp_unary ts _ k λ x ts1 l1. omega arith
  prefix_form-Leaves plus f t ts h k =
      then_expr expr query top shrinks query_shrinks _ bp_unary ts _ k λ x ts1 l1. omega arith
  prefix_form-Leaves lparen f t ts h k = paren-Leaves t ts k
  prefix_form-Leaves kw_case f t ts h k = case-Leaves f t ts h k
  prefix_form-Leaves kw_exists f t ts h k =
      bind-Leaves _ _ (parse_paren_select expr query ts) _ (paren_select-Leaves ts k) λ q ts1 l1. l1
  prefix_form-Leaves kw_cast f t ts h k = cast_call-Leaves f t ts h k
  prefix_form-Leaves ident f t ts h k = ident_expr-Leaves f t ts h k
  prefix_form-Leaves quoted_ident f t ts h k = ident_expr-Leaves f t ts h k
  prefix_form-Leaves _ f t ts h k = omega arith
