-- ===== src/Parser/Expr/Precedence.antt =====
-- Every expression that parseExpr returns has the shape that the table of precedence asks for (internal/parser/expr.go).
use mathlib.Core.Path.{subst}
use lightsql.Common.{ℕ, zero, suc, ◌≡◌, true}
use lightsql.Ast.{Expr}
use lightsql.Parser.{Stream, Parser, parsed, cur_kind}
use lightsql.Parser.Infix.{infix_at, looser}
use lightsql.Parser.Prefix.{parse_prefix, prefix_form}
use lightsql.Parser.Expr.{parse_expr}
use lightsql.Parser.Expr.Shape.{Shaped, Left}
use lightsql.Parser.Expr.Gives.{Gives, bind-Gives, Finished}
use lightsql.Parser.Expr.Operators.{infix-Finished}
use lightsql.Parser.Expr.Primary.{prefix_form-Primary}

parse_expr-Finished :
    {Q : Type 0} (query : Parser Q) (f min : ℕ) (ts : Stream)
    → Gives (Finished min) (parse_expr query f min ts)
unfolding parse_expr parse_prefix
parse_expr-Finished query zero min ts = tt
parse_expr-Finished query (suc f) min ts =
    let kept = parse_expr-Finished query f in
    bind-Gives _ (Finished min) (prefix_form (parse_expr query f) (cur_kind ts) query f ts) _
      (prefix_form-Primary (parse_expr query f) kept query (cur_kind ts) f ts)
      λ lhs ts1 k. infix-Finished (parse_expr query f) kept query f lhs min ts1 (k min)

-- In an expression that parseExpr returns, and in every part of it but subqueries: an operator that is open at
-- the right end of the left operand of another one binds at least as tightly, and an operator that is open
-- at the left end of a right operand binds more tightly, so that operators of one level group to the left;
-- IS, IN, LIKE, BETWEEN and the unary operators follow the same rule, and IS TRUE and IS FALSE are closed on
-- the right. No operator that is open at the left end of the whole binds less tightly than the binding
-- power that was asked for, and the infix form behind it, if there is one, binds less tightly than that.
-- How tightly an operator binds is what the table of the source says.
pub parse_expr_precedence :
    {Q : Type 0} (query : Parser Q) (f min : ℕ) (ts rest : Stream) (e : Expr Q)
    → parse_expr query f min ts ≡ parsed e rest
    → Shaped e × Left min e × (looser min (infix_at rest) ≡ true)
parse_expr_precedence query f min ts rest e h =
    let (stops, (shaped, left, right)) : Finished min e rest =
      subst (Gives (Finished min)) h (parse_expr-Finished query f min ts) in
    (shaped, left, stops)
