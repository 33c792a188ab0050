-- ===== src/Parser/Expr.antt =====
-- internal/parser/expr.go: parseExpr. Each call of it costs a unit of fuel.
pub mod Ends
pub mod Shape
pub mod Gives
pub mod Operators
pub mod Primary
pub mod Precedence
use lightsql.Common.{ℕ, zero, suc}
use lightsql.Ast.{Expr}
use lightsql.Parser.{Parser, starved, ◌>>=◌}
use lightsql.Parser.Infix.{parse_infix}
use lightsql.Parser.Prefix.{parse_prefix}

-- `parseExpr`
unfoldable pub parse_expr : {Q : Type 0} → Parser Q → ℕ → ℕ → Parser (Expr Q)
unfolding parse_prefix parse_infix
parse_expr query zero min ts = starved
parse_expr query (suc f) min ts = parse_prefix (parse_expr query f) query f ts >>= λ lhs ts1.
    parse_infix (parse_expr query f) query f lhs min ts1
