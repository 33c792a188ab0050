-- ===== src/Parser/Infix/Ends.antt =====
-- The infix forms come to an end (internal/parser/expr.go).
use lightsql.Common.{
  ℕ, zero, suc, ◌+◌, ◌≤◌, ◌<◌, ◌≡◌, Bool, true, false, [], ◌∷◌, length, arith, Bool-cases, inl, inr,
}
use lightsql.Token
use lightsql.Token.{
  Kind, ident, quoted_ident, string, number, lparen, rparen, comma, dot, double_colon, plus, minus,
  star, kw_and, kw_not, kw_is, kw_in, kw_between, kw_like, kw_null, kw_true, kw_false, kw_distinct,
  kw_from, kw_select, kw_case, kw_when, kw_then, kw_else, kw_end, kw_exists, kw_cast, kw_as,
  kw_current_timestamp, kw_local_timestamp, kw_current_date, kw_current_time, kw_local_time,
}
use lightsql.Ast.{Expr}
use lightsql.Parser.{Stream, Parser, ◌>>=◌, cur_kind, next, at, accept, expect}
use lightsql.Parser.TypeName.{parse_type_name}
use lightsql.Parser.Infix.{
  bp_none, bp_is, bp_range, Infix, cast_mark, is_mark, range_mark, operator, no_infix, infix_at,
  looser, is_form, parse_is, parse_exprs, in_operand, range_form, parse_range, parse_step,
  parse_infix,
}
use lightsql.Parser.Consumes.{
  Leaves, bind-Leaves, if-Leaves, weaker, length-next, accept-Leaves, expect-Leaves,
  parse_type_name-Leaves,
}

module _ {Q : Type 0} (expr : ℕ → Parser (Expr Q)) (query : Parser Q) (top : ℕ)
    (shrinks : (min : ℕ) (ts : Stream) → length ts < top → Leaves (length ts) (expr min ts))
    (query_shrinks : (ts : Stream) → length ts < top → Leaves (suc (length ts)) (query ts)) where
  pub exprs-Leaves :
      (f : ℕ) (ts : Stream)
      → length ts < f
      → length ts < top
      → Leaves (length ts) (parse_exprs expr f ts)
  unfolding parse_exprs
  exprs-Leaves zero ts h k = absurd (omega arith)
  exprs-Leaves (suc f) ts h k =
      bind-Leaves _ _ (expr bp_none ts) _ (shrinks bp_none ts k) λ e ts1 l1.
        bind-Leaves _ _ (accept comma ts1) _ (accept-Leaves comma ts1) λ more ts2 l2.
          if-Leaves _ more _ _
            (bind-Leaves _ _ (parse_exprs expr f ts2) _
              (exprs-Leaves f ts2 (omega arith) (omega arith)) λ es ts3 l3. omega arith)
            (omega arith)

  -- An expression and what follows it.
  pub then_expr :
      {A : Type 0} (n bp : ℕ) (ts : Stream) (g : Expr Q → Parser A)
      → length ts < top
      → ((e : Expr Q) (ts1 : Stream) → length ts1 < length ts → Leaves n (g e ts1))
      → Leaves n (expr bp ts >>= g)
  then_expr n bp ts g k h = bind-Leaves _ n (expr bp ts) g (shrinks bp ts k) h

  pub then_expect :
      {A : Type 0} (n : ℕ) (k : Kind) (ts : Stream) (g : Unit {0} → Parser A)
      → ((u : Unit {0}) (ts1 : Stream) → length ts1 < suc (length ts) → Leaves n (g u ts1))
      → Leaves n (expect k ts >>= g)
  then_expect n k ts g h = bind-Leaves _ n (expect k ts) g (expect-Leaves k ts) h

  is_form-Leaves :
      (k : Kind) (negate : Bool) (lhs : Expr Q) (ts : Stream)
      → length ts < top
      → Leaves (suc (length ts)) (is_form expr k negate lhs ts)
  unfolding is_form
  is_form-Leaves kw_null negate lhs ts h = length-next ts
  is_form-Leaves kw_true negate lhs ts h = length-next ts
  is_form-Leaves kw_false negate lhs ts h = length-next ts
  is_form-Leaves kw_distinct negate lhs ts h = then_expect _ kw_from (next ts) _ λ _ ts1 l1.
      then_expr _ (bp_is + 1) ts1 _ (omega (arith, length-next ts))
        λ rhs ts2 l2. omega (arith, length-next ts)
  is_form-Leaves _ negate lhs ts h = tt

  in_operand-Leaves :
      (f : ℕ) (lhs : Expr Q) (negate : Bool) (ts : Stream)
      → length ts < f
      → length ts < top
      → Leaves (suc (length ts)) (in_operand expr query f lhs negate ts)
  unfolding in_operand
  in_operand-Leaves f lhs negate ts h k =
      if-Leaves _ (at kw_select ts) _ _
        (bind-Leaves _ _ (query ts) _ (query_shrinks ts k) λ q ts1 l1. l1)
        (bind-Leaves _ _ (parse_exprs expr f ts) _ (exprs-Leaves f ts h k) λ es ts1 l1. omega arith)

  range_form-Leaves :
      (k : Kind) (f : ℕ) (lhs : Expr Q) (negate : Bool) (ts : Stream)
      → length (next ts) < f
      → length (next ts) < top
      → Leaves (suc (length (next ts))) (range_form expr query k f lhs negate ts)
  unfolding range_form
  range_form-Leaves kw_like f lhs negate ts h k =
      then_expr _ (bp_range + 1) (next ts) _ k λ rhs ts1 l1. omega arith
  range_form-Leaves kw_between f lhs negate ts h k =
      then_expr _ (bp_range + 1) (next ts) _ k λ lo ts1 l1.
        then_expect _ kw_and ts1 _
          λ _ ts2 l2. then_expr _ (bp_range + 1) ts2 _ (omega arith) λ hi ts3 l3. omega arith
  range_form-Leaves _ f lhs negate ts h k = then_expect _ lparen (next ts) _ λ _ ts1 l1.
      bind-Leaves _ _ (in_operand expr query f lhs negate ts1) _
        (in_operand-Leaves f lhs negate ts1 (omega arith) (omega arith))
        λ e ts2 l2. then_expect _ rparen ts2 _ λ _ ts3 l3. omega arith

  step-Leaves :
      (f min : ℕ) (m : Infix) (lhs : Expr Q) (t : Token.Token) (ts : Stream)
      → length ts < f
      → length ts < top
      → looser min m ≡ false
      → Leaves (suc (length ts)) (parse_step expr query f m lhs (t ∷ ts))
  unfolding parse_step looser parse_is parse_range
  step-Leaves f min cast_mark lhs t ts h k e =
      bind-Leaves _ _ (parse_type_name f ts) _ (parse_type_name-Leaves f ts h) λ typ ts1 l1. l1
  step-Leaves f min is_mark lhs t ts h k e =
      bind-Leaves _ _ (accept kw_not ts) _ (accept-Leaves kw_not ts) λ negate ts1 l1.
        weaker _ _ (is_form expr (cur_kind ts1) negate lhs ts1) (omega arith)
          (is_form-Leaves (cur_kind ts1) negate lhs ts1 (omega arith))
  step-Leaves f min (range_mark false) lhs t ts h k e =
      range_form-Leaves (cur_kind (t ∷ ts)) f lhs false (t ∷ ts) h k
  step-Leaves f min (range_mark true) lhs t ts h k e =
      weaker _ _ (range_form expr query (cur_kind ts) f lhs true ts) (length-next ts) (
        range_form-Leaves (cur_kind ts) f lhs true ts (omega (arith, length-next ts))
          (omega (arith, length-next ts)))
  step-Leaves f min (operator op bp) lhs t ts h k e =
      then_expr _ (bp + 1) ts _ k λ rhs ts1 l1. omega arith
  step-Leaves f min no_infix lhs t ts h k e = ground arith

  pub infix-Leaves :
      (f : ℕ) (lhs : Expr Q) (min : ℕ) (ts : Stream)
      → length ts < f
      → length ts ≤ top
      → Leaves (suc (length ts)) (parse_infix expr query f lhs min ts)
  unfolding parse_infix
  infix-Leaves zero lhs min ts h k = absurd (omega arith)
  infix-Leaves (suc f) lhs min [] h k = omega arith
  infix-Leaves (suc f) lhs min (t ∷ ts) h k = elim (Bool-cases (looser min (infix_at (t ∷ ts)))) [
    | inl e ↦ rw e (omega arith)
    | inr e ↦ rw e (
        bind-Leaves _ _ (parse_step expr query f (infix_at (t ∷ ts)) lhs (t ∷ ts)) _
          (step-Leaves f min (infix_at (t ∷ ts)) lhs t ts (omega arith) (omega arith) e)
          λ x ts1 l1.
            weaker _ _ (parse_infix expr query f x min ts1) (omega arith)
              (infix-Leaves f x min ts1 (omega arith) (omega arith)))
  ]
