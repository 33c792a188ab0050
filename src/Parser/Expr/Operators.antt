-- ===== src/Parser/Expr/Operators.antt =====
-- The infix forms keep the precedence of operators (internal/parser/expr.go: parseInfix, parseIs, parseRange).
use lightsql.Common.{
  ℕ, zero, suc, ◌+◌, ◌≤◌, ◌≡◌, refl, [], Bool, true, false, not, if◌then◌else◌, arith, Bool-cases,
  inl, inr,
}
use lightsql.Token.{
  Kind, lparen, rparen, comma, kw_and, kw_not, kw_between, kw_like, kw_null, kw_true, kw_false,
  kw_distinct, kw_from, kw_select,
}
use lightsql.Ast.{
  BinaryOp, op_like, op_not_like, op_is_distinct_from, op_is_not_distinct_from, Expr, binary,
  literal,
}
use lightsql.Parser.{Stream, Parser, cur_kind, next, at, accept, expect}
use lightsql.Parser.TypeName.{parse_type_name}
use lightsql.Parser.Infix.{
  bp_none, bp_is, bp_range, Infix, cast_mark, is_mark, range_mark, operator, no_infix, infix_at,
  looser, truth_kind, truth_test, distinct_op, like_op, is_form, parse_is, parse_exprs, in_operand,
  range_form, parse_range, parse_step, parse_infix,
}
use lightsql.Parser.Expr.Shape.{op_bp, is_test, is_truth, Shaped, ShapedAll, Left, Right}
use lightsql.Parser.Expr.Gives.{
  Gives, bind-Gives, if-Gives, then_any, power, looser-power, tighter-power, Listed,
  infix_form-Listed, Operand, Finished,
}

if-unit : (b : Bool) (A : Type 0) → A → if b then Unit else A
if-unit true A a = tt
if-unit false A a = a

-- An operator between an operand that binds at least as tightly, and one that binds more tightly.
binary-Operand :
    {Q : Type 0} (op : BinaryOp) (min : ℕ) (x y : Expr Q) (ts : Stream)
    → min ≤ op_bp op
    → Shaped x
    → Left min x
    → Right (op_bp op) x
    → Finished (op_bp op + 1) y ts
    → Operand min (binary op x y) ts
binary-Operand op min x y ts h sx lx rx (e, (sy, ly, ry)) = (
  (rx, ly, sx, sy),
  (h, lx),
  if-unit (is_test op y) _ (looser-power (op_bp op) (infix_at ts) e, ry),
)

truth_kind-is_truth : (Q : Type 0) (k : Kind) → is_truth {Q = Q} (literal (truth_kind k) []) ≡ true
unfolding truth_kind
truth_kind-is_truth Q kw_false = refl
truth_kind-is_truth Q _ = refl

infix_at-Listed : (ts : Stream) → Listed (infix_at ts)
unfolding infix_at
infix_at-Listed ts = infix_form-Listed (cur_kind ts) (cur_kind (next ts))

module _ {Q : Type 0} (expr : ℕ → Parser (Expr Q))
    (kept : (min : ℕ) (ts : Stream) → Gives (Finished min) (expr min ts)) where
  pub exprs-Shaped : (f : ℕ) (ts : Stream) → Gives (λ es rest. ShapedAll es) (parse_exprs expr f ts)
  unfolding parse_exprs
  exprs-Shaped zero ts = tt
  exprs-Shaped (suc f) ts =
      bind-Gives _ _ (expr bp_none ts) _ (kept bp_none ts) λ e ts1 (_, (se, _, _)).
        then_any _ (accept comma ts1) _ λ more ts2.
          if-Gives _ more _ _
            (bind-Gives _ _ (parse_exprs expr f ts2) _ (exprs-Shaped f ts2) λ es ts3 ss. (se, ss))
            (se, tt)

  truth_test-Operand :
      (negate : Bool) (min : ℕ) (lhs : Expr Q) (ts : Stream)
      → min ≤ bp_is
      → Shaped lhs
      → Left min lhs
      → Right bp_is lhs
      → Gives (Operand min) (truth_test expr negate lhs ts)
  truth_test-Operand true min lhs ts h s l r =
      ((r, tt, s, tt), (h, l), rw (truth_kind-is_truth Q (cur_kind ts)) tt)
  truth_test-Operand false min lhs ts h s l r =
      ((r, tt, s, tt), (h, l), rw (truth_kind-is_truth Q (cur_kind ts)) tt)

  is_form-Operand :
      (k : Kind) (negate : Bool) (min : ℕ) (lhs : Expr Q) (ts : Stream)
      → min ≤ bp_is
      → Shaped lhs
      → Left min lhs
      → Right bp_is lhs
      → Gives (Operand min) (is_form expr k negate lhs ts)
  unfolding is_form
  is_form-Operand kw_null negate min lhs ts h s l r = ((r, s), (h, l), tt)
  is_form-Operand kw_true negate min lhs ts h s l r = truth_test-Operand negate min lhs ts h s l r
  is_form-Operand kw_false negate min lhs ts h s l r = truth_test-Operand negate min lhs ts h s l r
  is_form-Operand kw_distinct negate min lhs ts h s l r =
      then_any _ (expect kw_from (next ts)) _ λ _ ts1.
        bind-Gives _ _ (expr (bp_is + 1) ts1) _ (kept (bp_is + 1) ts1)
          λ rhs ts2 fin. distinct negate rhs ts2 fin
    where
      distinct :
          (negate : Bool) (rhs : Expr Q) (ts2 : Stream)
          → Finished (bp_is + 1) rhs ts2
          → Operand min (binary (distinct_op expr (not negate)) lhs rhs) ts2
      distinct true rhs ts2 fin = binary-Operand op_is_not_distinct_from min lhs rhs ts2 h s l r fin
      distinct false rhs ts2 fin = binary-Operand op_is_distinct_from min lhs rhs ts2 h s l r fin
  is_form-Operand _ negate min lhs ts h s l r = tt

  module _ (query : Parser Q) where
    in_operand-Shaped :
        (f : ℕ) (lhs : Expr Q) (negate : Bool) (min : ℕ) (ts : Stream)
        → min ≤ bp_range
        → Shaped lhs
        → Left min lhs
        → Right bp_range lhs
        → Gives
            (λ e ts1. (ts2 : Stream) → Operand min e ts2)
            (in_operand expr query f lhs negate ts)
    unfolding in_operand
    in_operand-Shaped f lhs negate min ts h s l r =
        if-Gives _ (at kw_select ts) _ _ (then_any _ (query ts) _ λ q ts1 ts2. ((r, s), (h, l), tt))
          (bind-Gives _ _ (parse_exprs expr f ts) _ (exprs-Shaped f ts)
            λ es ts1 ss ts2. ((r, s, ss), (h, l), tt))

    range_form-Operand :
        (k : Kind) (f : ℕ) (lhs : Expr Q) (negate : Bool) (min : ℕ) (ts : Stream)
        → min ≤ bp_range
        → Shaped lhs
        → Left min lhs
        → Right bp_range lhs
        → Gives (Operand min) (range_form expr query k f lhs negate ts)
    unfolding range_form
    range_form-Operand kw_like f lhs negate min ts h s l r =
        bind-Gives _ _ (expr (bp_range + 1) (next ts)) _ (kept (bp_range + 1) (next ts))
          λ rhs ts1 fin. like negate rhs ts1 fin
      where
        like :
            (negate : Bool) (rhs : Expr Q) (ts1 : Stream)
            → Finished (bp_range + 1) rhs ts1
            → Operand min (binary (like_op expr negate) lhs rhs) ts1
        like true rhs ts1 fin = binary-Operand op_not_like min lhs rhs ts1 h s l r fin
        like false rhs ts1 fin = binary-Operand op_like min lhs rhs ts1 h s l r fin
    range_form-Operand kw_between f lhs negate min ts h s l r =
        bind-Gives _ _ (expr (bp_range + 1) (next ts)) _ (kept (bp_range + 1) (next ts))
          λ lo ts1 (_, (slo, llo, _)). then_any _ (expect kw_and ts1) _ λ _ ts2.
            bind-Gives _ _ (expr (bp_range + 1) ts2) _ (kept (bp_range + 1) ts2)
              λ hi ts3 (e, (shi, lhi, rhi)).
                ((r, llo, lhi, s, slo, shi), (h, l), (looser-power bp_range (infix_at ts3) e, rhi))
    range_form-Operand _ f lhs negate min ts h s l r =
        then_any _ (expect lparen (next ts)) _ λ _ ts1.
          bind-Gives _ _ (in_operand expr query f lhs negate ts1) _
            (in_operand-Shaped f lhs negate min ts1 h s l r)
            λ e ts2 k. then_any _ (expect rparen ts2) _ λ _ ts3. k ts3

    step-Operand :
        (f min : ℕ) (m : Infix) (lhs : Expr Q) (ts : Stream)
        → Listed m
        → min ≤ power m
        → Shaped lhs
        → Left min lhs
        → Right (power m) lhs
        → looser min m ≡ false
        → Gives (Operand min) (parse_step expr query f m lhs ts)
    unfolding parse_step looser parse_is parse_range
    step-Operand f min cast_mark lhs ts g h s l r e =
        then_any _ (parse_type_name f (next ts)) _ λ typ ts1. (s, tt, tt)
    step-Operand f min is_mark lhs ts g h s l r e =
        then_any _ (accept kw_not (next ts)) _
          λ negate ts1. is_form-Operand (cur_kind ts1) negate min lhs ts1 h s l r
    step-Operand f min (range_mark false) lhs ts g h s l r e =
        range_form-Operand (cur_kind ts) f lhs false min ts h s l r
    step-Operand f min (range_mark true) lhs ts g h s l r e =
        range_form-Operand (cur_kind (next ts)) f lhs true min (next ts) h s l r
    step-Operand f min (operator op bp) lhs ts g h s l r e =
        bind-Gives _ _ (expr (bp + 1) (next ts)) _ (kept (bp + 1) (next ts))
          λ rhs ts1 fin. binary-Operand op min lhs rhs ts1 (rw g h) s l (rw g r) (rw g fin)
    step-Operand f min no_infix lhs ts g h s l r e = ground arith

    pub infix-Finished :
        (f : ℕ) (lhs : Expr Q) (min : ℕ) (ts : Stream)
        → Operand min lhs ts
        → Gives (Finished min) (parse_infix expr query f lhs min ts)
    unfolding parse_infix
    infix-Finished zero lhs min ts k = tt
    infix-Finished (suc f) lhs min ts (s, l, r) = elim (Bool-cases (looser min (infix_at ts))) [
      | inl e ↦ rw e (e, (s, l, r))
      | inr e ↦ rw e (
          bind-Gives _ _ (parse_step expr query f (infix_at ts) lhs ts) _
            (step-Operand f min (infix_at ts) lhs ts (infix_at-Listed ts)
              (tighter-power min (infix_at ts) e) s l r e)
            λ x ts1 k. infix-Finished f x min ts1 k)
    ]
