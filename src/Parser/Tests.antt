-- ===== src/Parser/Tests.antt =====
-- Tests of the expression parser, and its theorems at concrete inputs.
use lightsql.Common.{◌≡◌, refl, true, false, [], ◌∷◌, length, arith, Bytes, bytes, syntax_error}
use lightsql.Token.{
  Kind, Token, ident, number, lparen, rparen, comma, plus, star, minus, caret, eq, kw_and, kw_not,
  kw_is, kw_null, kw_in, kw_between, kw_case, kw_end,
}
use lightsql.Ast.{
  no_name, lit_number, op_add, op_sub, op_mul, op_exp, op_eq, op_and, op_neg, op_not, Expr, literal,
  column_ref, binary, unary, is_null, in_list, between, no_exprs, item,
}
use lightsql.Parser.{Stream, Parser, parsed, failed, cur_val, next}
use lightsql.Parser.Infix.{infix_at, looser}
use lightsql.Parser.Consumes.{Leaves, length-next}
use lightsql.Parser.Expr.{parse_expr}
use lightsql.Parser.Expr.Ends.{parse_expr-Leaves}
use lightsql.Parser.Expr.Shape.{Shaped, Left}
use lightsql.Parser.Expr.Precedence.{parse_expr_precedence}

abbrev tok : Kind → Bytes → Token
tok k v = record { kind = k; pos = 0; val = v; ord = 0 }

abbrev sign : Kind → Token
sign k = tok k []

abbrev digit : Bytes → Token
digit v = tok number v

abbrev num : Bytes → Expr Bytes
num v = literal lit_number v

abbrev column : Bytes → Expr Bytes
column v = column_ref no_name no_name (record { name = v; quoted = false })

-- A query that is one word.
abbrev one_word : Parser Bytes
one_word ts = parsed (cur_val ts) (next ts)

-- NOT a = 1 + 2 * 3 IS NULL AND b IN (4, 5)
abbrev condition : Stream
condition =
    sign kw_not
    ∷ tok ident (bytes "a")
    ∷ sign eq
    ∷ digit (bytes "1")
    ∷ sign plus
    ∷ digit (bytes "2")
    ∷ sign star
    ∷ digit (bytes "3")
    ∷ sign kw_is
    ∷ sign kw_null
    ∷ sign kw_and
    ∷ tok ident (bytes "b")
    ∷ sign kw_in
    ∷ sign lparen
    ∷ digit (bytes "4")
    ∷ sign comma
    ∷ digit (bytes "5")
    ∷ sign rparen
    ∷ []

abbrev condition_expr : Expr Bytes
condition_expr =
    binary op_and
      (unary op_not (
        is_null
          (binary op_eq (column (bytes "a"))
            (binary op_add (num (bytes "1")) (binary op_mul (num (bytes "2")) (num (bytes "3")))))
          false))
      (in_list (column (bytes "b")) false
        (item (num (bytes "4")) (item (num (bytes "5")) no_exprs)))

parse_condition : parse_expr one_word 19 0 condition ≡ parsed condition_expr []
unfolding parse_expr
parse_condition = refl

-- 1 - 2 - 3 groups to the left, and -2 ^ 2 negates before it raises.
parse_differences :
    parse_expr one_word 9 0
      (digit (bytes "1") ∷ sign minus ∷ digit (bytes "2") ∷ sign minus ∷ digit (bytes "3") ∷ [])
    ≡ parsed
        (binary op_sub (binary op_sub (num (bytes "1")) (num (bytes "2"))) (num (bytes "3")))
        []
unfolding parse_expr
parse_differences = refl

parse_power :
    parse_expr one_word 9 0 (sign minus ∷ digit (bytes "2") ∷ sign caret ∷ digit (bytes "2") ∷ [])
    ≡ parsed (binary op_exp (unary op_neg (num (bytes "2"))) (num (bytes "2"))) []
unfolding parse_expr
parse_power = refl

-- The AND between the bounds of BETWEEN is not the operator.
parse_bounds :
    parse_expr one_word 12 0 (
      tok ident (bytes "a")
      ∷ sign kw_not
      ∷ sign kw_between
      ∷ digit (bytes "1")
      ∷ sign kw_and
      ∷ digit (bytes "2")
      ∷ sign kw_and
      ∷ tok ident (bytes "b")
      ∷ [])
    ≡ parsed
        (binary op_and
          (between (column (bytes "a")) true (num (bytes "1")) (num (bytes "2")))
          (column (bytes "b")))
        []
unfolding parse_expr
parse_bounds = refl

-- CASE END has no WHEN.
parse_empty_case : parse_expr one_word 5 0 (sign kw_case ∷ sign kw_end ∷ []) ≡ failed syntax_error
unfolding parse_expr
parse_empty_case = refl

parse_expr-Leaves_example : Leaves (length condition) (parse_expr one_word 19 0 condition)
parse_expr-Leaves_example = parse_expr-Leaves one_word length-next 19 0 condition (omega arith)

parse_expr_precedence_example :
    Shaped condition_expr × Left 0 condition_expr × (looser 0 (infix_at []) ≡ true)
parse_expr_precedence_example =
    parse_expr_precedence one_word 19 0 condition [] condition_expr parse_condition
