-- ===== src/Ast.antt =====
-- internal/ast/ast.go: names, types and expressions. Positions only serve messages and are left out. A nil
-- expression is `no_expr`. Left out are DefaultExpr, which only a VALUES list has, and the
-- negation of ExistsExpr, which the parser never sets. The type of queries is a parameter.
use lightsql.Common.{ℕ, Bool, List, [], Bytes}

pub record Name : Type 0 where
  pub name : Bytes
  pub quoted : Bool

abbrev pub no_name : Name
no_name = record { name = []; quoted = Bool.false }

-- `TypeName`
pub record TypeName : Type 0 where
  pub name : Bytes
  pub mods : List ℕ

pub data LiteralKind : Type 0 where
  lit_string lit_number lit_true lit_false lit_null : LiteralKind

pub data BinaryOp : Type 0 where
  op_add op_sub op_mul op_div op_mod op_exp op_concat : BinaryOp
  op_eq op_ne op_lt op_le op_gt op_ge op_and op_or : BinaryOp
  op_like op_not_like op_is_distinct_from op_is_not_distinct_from : BinaryOp
  op_json_field op_json_text op_json_contains : BinaryOp

pub data UnaryOp : Type 0 where
  op_neg op_plus op_not : UnaryOp

pub data CurrentTimeKind : Type 0 where
  current_timestamp local_timestamp current_date current_time local_time : CurrentTimeKind

mutual
  pub data Expr (Q : Type 0) : Type 0 where
    literal : LiteralKind → Bytes → Expr Q
    param : ℕ → Expr Q
    column_ref : (schema table column : Name) → Expr Q
    star : (table : Name) → Expr Q
    binary : BinaryOp → Expr Q → Expr Q → Expr Q
    unary : UnaryOp → Expr Q → Expr Q
    paren : Expr Q → Expr Q
    is_null : Expr Q → (negate : Bool) → Expr Q
    cast : Expr Q → TypeName → Expr Q
    func_call : Name → (is_distinct is_star : Bool) → Exprs Q → Expr Q
    in_list : Expr Q → (negate : Bool) → Exprs Q → Expr Q
    in_query : Expr Q → (negate : Bool) → Q → Expr Q
    between : Expr Q → (negate : Bool) → (lo hi : Expr Q) → Expr Q
    case_expr : (operand : OptExpr Q) → Whens Q → (els : OptExpr Q) → Expr Q
    exists : Q → Expr Q
    subquery : Q → Expr Q
    current_time_expr : CurrentTimeKind → Expr Q

  pub data OptExpr (Q : Type 0) : Type 0 where
    no_expr : OptExpr Q
    some_expr : Expr Q → OptExpr Q

  pub data Exprs (Q : Type 0) : Type 0 where
    no_exprs : Exprs Q
    item : Expr Q → Exprs Q → Exprs Q

  pub data Whens (Q : Type 0) : Type 0 where
    no_when : Whens Q
    when : (cond value : Expr Q) → Whens Q → Whens Q
