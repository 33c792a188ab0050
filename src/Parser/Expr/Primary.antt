-- ===== src/Parser/Expr/Primary.antt =====
-- The prefix forms keep the precedence of operators (internal/parser/expr.go: parsePrefix and what it calls).
use lightsql.Common.{ℕ, zero, suc}
use lightsql.Token
use lightsql.Token.{
  Kind, ident, quoted_ident, string, number, lparen, rparen, comma, dot, minus, plus, star, kw_not,
  kw_null, kw_true, kw_false, kw_distinct, kw_select, kw_case, kw_when, kw_then, kw_else, kw_end,
  kw_exists, kw_cast, kw_as, kw_current_timestamp, kw_local_timestamp, kw_current_date,
  kw_current_time, kw_local_time,
}
use lightsql.Ast.{Name, UnaryOp, op_not, op_neg, op_plus, Expr, OptExpr, Whens, no_when, when}
use lightsql.Parser.{
  Stream, Parsed, Parser, parsed, failed, starved, ◌>>=◌, cur_kind, next, at, accept, expect,
  expect_name,
}
use lightsql.Parser.TypeName.{parse_type_name}
use lightsql.Parser.Infix.{bp_none, infix_at, parse_exprs}
use lightsql.Parser.Prefix.{
  parse_paren, parse_paren_select, parse_whens, parse_operand, parse_else, end_case, parse_case,
  parse_cast_call, call_args, parse_call, after_dot, third_part, parse_ident_expr, signed,
  prefix_form,
}
use lightsql.Parser.Expr.Shape.{unary_bp, Shaped, ShapedOpt, ShapedWhens}
use lightsql.Parser.Expr.Gives.{
  Gives, bind-Gives, if-Gives, then_any, looser-power_le, Operand, Finished,
}
use lightsql.Parser.Expr.Operators.{exprs-Shaped}

-- No operator of the expression is open on the left, and those on the right bind no looser than what follows.
abbrev pub Primary : {Q : Type 0} → Expr Q → Stream → Type 0
Primary e ts = (min : ℕ) → Operand min e ts

-- No operator of the expression is open on either side.
abbrev Closed : {Q : Type 0} → Expr Q → Stream → Type 0
Closed e ts = (rest : Stream) → Primary e rest

module _ {Q : Type 0} (expr : ℕ → Parser (Expr Q))
    (kept : (min : ℕ) (ts : Stream) → Gives (Finished min) (expr min ts)) where
  -- An expression, and what follows it.
  then_expr :
      {A : Type 0} (P : A → Stream → Type 0) (ts : Stream) (f : Expr Q → Parser A)
      → ((e : Expr Q) (rest : Stream) → Shaped e → Gives P (f e rest))
      → Gives P (expr bp_none ts >>= f)
  then_expr P ts f k =
      bind-Gives _ P (expr bp_none ts) f (kept bp_none ts) λ e rest (_, (s, _, _)). k e rest s

  signed-Primary : (op : UnaryOp) (ts : Stream) → Gives Primary (signed expr op (unary_bp op) ts)
  signed-Primary op ts =
      bind-Gives _ Primary (expr (unary_bp op) (next ts)) _ (kept (unary_bp op) (next ts))
        λ x ts1 (e, (s, l, r)) m. ((l, s), tt, (looser-power_le (unary_bp op) (infix_at ts1) e, r))

  whens-Shaped : (f : ℕ) (ts : Stream) → Gives (λ ws rest. ShapedWhens ws) (parse_whens expr f ts)
  unfolding parse_whens
  whens-Shaped zero ts = tt
  whens-Shaped (suc f) ts =
      if-Gives _ (at kw_when ts) _ _
        (then_expr _ (next ts) _ λ c ts1 sc. then_any _ (expect kw_then ts1) _ λ _ ts2.
          then_expr _ ts2 _ λ v ts3 sv.
            bind-Gives _ _ (parse_whens expr f ts3) _ (whens-Shaped f ts3)
              λ ws ts4 sw. (sc, sv, sw))
        tt

  operand-Shaped : (ts : Stream) → Gives (λ o rest. ShapedOpt o) (parse_operand expr ts)
  unfolding parse_operand
  operand-Shaped ts =
      if-Gives _ (at kw_end ts) _ _ tt
        (if-Gives _ (at kw_when ts) _ _ tt (then_expr _ ts _ λ x ts1 s. s))

  else-Shaped : (ts : Stream) → Gives (λ o rest. ShapedOpt o) (parse_else expr ts)
  unfolding parse_else
  else-Shaped ts = if-Gives _ (at kw_else ts) _ _ (then_expr _ (next ts) _ λ x ts1 s. s) tt

  case-Closed : (f : ℕ) (ts : Stream) → Gives Closed (parse_case expr f ts)
  unfolding parse_case
  case-Closed f ts =
      bind-Gives _ Closed (parse_operand expr (next ts)) _ (operand-Shaped (next ts)) λ o ts1 so.
        bind-Gives _ Closed (parse_whens expr f ts1) _ (whens-Shaped f ts1)
          λ ws ts2 sw. closing o ws ts2 so sw
    where
      closing :
          (o : OptExpr Q) (ws : Whens Q) (ts2 : Stream)
          → ShapedOpt o
          → ShapedWhens ws
          → Gives Closed (end_case expr o ws ts2)
      closing o no_when ts2 so sw = tt
      closing o (when c v ws) ts2 so sw =
          bind-Gives _ Closed (parse_else expr ts2) _ (else-Shaped ts2) λ els ts3 se.
            then_any Closed (expect kw_end ts3) _ λ _ ts4 rest m. ((so, sw, se), tt, tt)

  cast_call-Closed : (f : ℕ) (ts : Stream) → Gives Closed (parse_cast_call expr f ts)
  unfolding parse_cast_call
  cast_call-Closed f ts = then_any Closed (expect lparen (next ts)) _ λ _ ts1.
      then_expr Closed ts1 _ λ x ts2 s. then_any Closed (expect kw_as ts2) _ λ _ ts3.
        then_any Closed (parse_type_name f ts3) _
          λ typ ts4. then_any Closed (expect rparen ts4) _ λ _ ts5 rest m. (s, tt, tt)

  call_args-Closed :
      (k : Kind) (f : ℕ) (word : Name) (ts : Stream) → Gives Closed (call_args expr k f word ts)
  unfolding call_args
  call_args-Closed star f word ts = λ rest m. (tt, tt, tt)
  call_args-Closed rparen f word ts = λ rest m. (tt, tt, tt)
  call_args-Closed _ f word ts = then_any Closed (accept kw_distinct ts) _ λ is_distinct ts1.
      bind-Gives _ Closed (parse_exprs expr f ts1) _ (exprs-Shaped expr kept f ts1)
        λ es ts2 s rest m. (s, tt, tt)

  call-Closed : (f : ℕ) (word : Name) (ts : Stream) → Gives Closed (parse_call expr f word ts)
  unfolding parse_call
  call-Closed f word ts =
      bind-Gives _ Closed (call_args expr (cur_kind (next ts)) f word (next ts)) _
        (call_args-Closed (cur_kind (next ts)) f word (next ts))
        λ call ts1 c. then_any Closed (expect rparen ts1) _ λ _ ts2. c

  after_dot-Closed :
      (k : Kind) (table : Name) (named : Name → Parser (Expr Q)) (ts : Stream)
      → ((w : Name) (ts1 : Stream) → Gives Closed (named w ts1))
      → Gives Closed (after_dot expr k table named ts)
  unfolding after_dot
  after_dot-Closed star table named ts h = λ rest m. (tt, tt, tt)
  after_dot-Closed _ table named ts h = then_any Closed (expect_name ts) _ λ w ts1. h w ts1

  third_part-Closed :
      (first second : Name) (ts : Stream) → Gives Closed (third_part expr first second ts)
  unfolding third_part
  third_part-Closed first second ts = then_any Closed (accept dot ts) _ λ more ts1.
      if-Gives Closed more _ _
        (after_dot-Closed (cur_kind ts1) second _ ts1 λ w ts2 rest m. (tt, tt, tt))
        λ rest m. (tt, tt, tt)

  ident_expr-Closed : (f : ℕ) (ts : Stream) → Gives Closed (parse_ident_expr expr f ts)
  unfolding parse_ident_expr
  ident_expr-Closed f ts = if-Gives Closed (at lparen (next ts)) _ _ (call-Closed f _ (next ts)) (
      then_any Closed (accept dot (next ts)) _ λ more ts1.
        if-Gives Closed more _ _
          (after_dot-Closed (cur_kind ts1) _ _ ts1 λ w ts2. third_part-Closed _ w ts2)
          λ rest m. (tt, tt, tt))

  module _ (query : Parser Q) where
    paren-Closed : (ts : Stream) → Gives Closed (parse_paren expr query ts)
    unfolding parse_paren
    paren-Closed ts =
        if-Gives Closed (at kw_select (next ts)) _ _
          (then_any Closed (query (next ts)) _
            λ q ts1. then_any Closed (expect rparen ts1) _ λ _ ts2 rest m. (tt, tt, tt))
          (then_expr Closed (next ts) _
            λ x ts1 s. then_any Closed (expect rparen ts1) _ λ _ ts2 rest m. (s, tt, tt))

    Closed-Primary : (r : Parsed (Expr Q)) → Gives Closed r → Gives Primary r
    Closed-Primary (parsed e ts) k = k ts
    Closed-Primary (failed c) k = tt
    Closed-Primary starved k = tt

    pub prefix_form-Primary :
        (k : Kind) (f : ℕ) (ts : Stream) → Gives Primary (prefix_form expr k query f ts)
    unfolding prefix_form
    prefix_form-Primary kw_not f ts = signed-Primary op_not ts
    prefix_form-Primary minus f ts = signed-Primary op_neg ts
    prefix_form-Primary plus f ts = signed-Primary op_plus ts
    prefix_form-Primary lparen f ts = Closed-Primary _ (paren-Closed ts)
    prefix_form-Primary kw_case f ts = Closed-Primary _ (case-Closed f ts)
    prefix_form-Primary kw_exists f ts =
        then_any Primary (parse_paren_select expr query (next ts)) _ λ q ts1 m. (tt, tt, tt)
    prefix_form-Primary kw_cast f ts = Closed-Primary _ (cast_call-Closed f ts)
    prefix_form-Primary ident f ts = Closed-Primary _ (ident_expr-Closed f ts)
    prefix_form-Primary quoted_ident f ts = Closed-Primary _ (ident_expr-Closed f ts)
    prefix_form-Primary string f ts = λ m. (tt, tt, tt)
    prefix_form-Primary number f ts = λ m. (tt, tt, tt)
    prefix_form-Primary kw_true f ts = λ m. (tt, tt, tt)
    prefix_form-Primary kw_false f ts = λ m. (tt, tt, tt)
    prefix_form-Primary kw_null f ts = λ m. (tt, tt, tt)
    prefix_form-Primary Token.param f ts = λ m. (tt, tt, tt)
    prefix_form-Primary star f ts = λ m. (tt, tt, tt)
    prefix_form-Primary kw_current_timestamp f ts = λ m. (tt, tt, tt)
    prefix_form-Primary kw_local_timestamp f ts = λ m. (tt, tt, tt)
    prefix_form-Primary kw_current_date f ts = λ m. (tt, tt, tt)
    prefix_form-Primary kw_current_time f ts = λ m. (tt, tt, tt)
    prefix_form-Primary kw_local_time f ts = λ m. (tt, tt, tt)
    prefix_form-Primary _ f ts = tt
