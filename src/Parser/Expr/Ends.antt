-- ===== src/Parser/Expr/Ends.antt =====
-- The expression parser comes to an end (internal/parser/expr.go).
use lightsql.Common.{ℕ, zero, suc, ◌<◌, [], ◌∷◌, length, arith}
use lightsql.Parser.{Stream, Parser}
use lightsql.Parser.Infix.{parse_infix}
use lightsql.Parser.Infix.Ends.{infix-Leaves}
use lightsql.Parser.Prefix.{parse_prefix, prefix_form}
use lightsql.Parser.Prefix.Ends.{prefix_form-Leaves}
use lightsql.Parser.Expr.{parse_expr}
use lightsql.Parser.Consumes.{Leaves, bind-Leaves, weaker}

-- parseExpr comes to an end on all tokens, with an expression and less tokens than before, or with a
-- syntax error: one unit of fuel more than there are tokens is enough. The parser of queries is to
-- come to an end too, and to add no tokens.
pub parse_expr-Leaves :
    {Q : Type 0} (query : Parser Q)
    → ((ts : Stream) → Leaves (suc (length ts)) (query ts))
    → (f min : ℕ) (ts : Stream) → length ts < f
    → Leaves (length ts) (parse_expr query f min ts)
unfolding parse_expr parse_prefix
parse_expr-Leaves query ends zero min ts h = absurd (omega arith)
parse_expr-Leaves query ends (suc f) min [] h = unfold prefix_form in tt
parse_expr-Leaves query ends (suc f) min (t ∷ ts) h =
    let rest = (λ (m : ℕ) (us : Stream). parse_expr-Leaves query ends f m us) in
    bind-Leaves _ _ (prefix_form (parse_expr query f) t.kind query f (t ∷ ts)) _
      (prefix_form-Leaves (parse_expr query f) query f rest (λ us k. ends us) t.kind f t ts
        (omega arith) (omega arith))
      λ lhs ts1 l1.
        weaker _ _ (parse_infix (parse_expr query f) query f lhs min ts1) (omega arith) (
          infix-Leaves (parse_expr query f) query f rest (λ us k. ends us) f lhs min ts1
            (omega arith) (omega arith))
