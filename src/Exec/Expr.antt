-- ===== src/Exec/Expr.antt =====
-- internal/plan/plan.go and internal/ast/ast.go: bound expressions; and the pieces of a LIKE pattern, from
-- internal/exec/expr.go.
use lightsql.Common.{ℕ, Bool, true, false, List, [], ◌∷◌, ◌++◌, ◌==◌, if◌then◌else◌, Bytes}
use lightsql.Types.Value.{Value, Kind}
use lightsql.Exec.Eval.{Piece, literal, any_run, any_one, ArithOp}

-- `BinaryOp`: the arithmetic operators and the comparisons are told apart by type.
pub data Comparison : Type 0 where
  op_eq op_ne op_lt op_le op_gt op_ge op_is_distinct_from op_is_not_distinct_from : Comparison

pub data JsonOp : Type 0 where
  op_json_field op_json_text op_json_contains : JsonOp

pub data BinaryOp : Type 0 where
  op_arith : ArithOp → BinaryOp
  op_compare : Comparison → BinaryOp
  op_json : JsonOp → BinaryOp
  op_concat op_and op_or op_like op_not_like : BinaryOp

pub data UnaryOp : Type 0 where
  op_neg op_plus op_not : UnaryOp

-- `Expr` of package plan. Names and kinds that compile does not read are left out.
mutual
  pub data Expr : Type 0 where
    const : Value → Expr
    outer_ref : (level ordinal : ℕ) → Expr
    column : (ordinal : ℕ) → Expr
    param : (ord : ℕ) → Kind → Expr
    is_null_expr : Expr → (negate : Bool) → Expr
    cast_expr : Expr → Kind → Expr
    case_expr : Arms → Exprs → Expr
    func_call : Bytes → Exprs → Expr
    coalesce : Exprs → Expr
    now_expr : Kind → Expr
    scalar_subquery : ℕ → (correlated : Bool) → Expr
    exists_subquery : ℕ → (negate correlated : Bool) → Expr
    in_subquery : Expr → ℕ → (negate correlated : Bool) → Expr
    in_list : Expr → Exprs → (negate : Bool) → Expr
    unary : UnaryOp → Expr → Expr
    binary : BinaryOp → Expr → Expr → Kind → Expr

  -- A list of expressions; the Else of a CASE is one of none or one.
  pub data Exprs : Type 0 where
    no_more : Exprs
    then_expr : Expr → Exprs → Exprs

  pub data Arms : Type 0 where
    no_arm : Arms
    when_then : (cond value : Expr) → Arms → Arms

abbrev pub flush : Bytes → List Piece → List Piece
flush [] rest = rest
flush (c ∷ lit) rest = literal (c ∷ lit) ∷ rest

-- The loop of `likeRegexp`, with the literal that is not written yet.
unfoldable pub like_pieces : Bytes → Bytes → List Piece
like_pieces lit [] = flush lit []
like_pieces lit (c ∷ []) =
    if c == b'%'
    then flush lit (any_run ∷ [])
    else if c == b'_'
    then flush lit (any_one ∷ [])
    else flush (lit ++ c ∷ []) []
like_pieces lit (c ∷ d ∷ rest) = elim (c == b'%') [
  | true ↦ flush lit (any_run ∷ like_pieces [] (d ∷ rest))
  | false ↦ elim (c == b'_') [
    | true ↦ flush lit (any_one ∷ like_pieces [] (d ∷ rest))
    | false ↦ elim (c == b'\\') [
      | true ↦ like_pieces (lit ++ d ∷ []) rest
      | false ↦ like_pieces (lit ++ c ∷ []) (d ∷ rest)
    ]
  ]
]
