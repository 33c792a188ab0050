-- ===== src/Exec/Subquery.antt =====
-- internal/exec/expr.go: what a subquery in an expression makes of the rows of its plan.
use lightsql.Common.{
  ℕ, Bool, true, false, not, List, [], ◌∷◌, Option, none, some, leb, if◌then◌else◌, length, take,
  Code, cardinality_violation,
}
use lightsql.Types.Value.{Value}
use lightsql.Types.Compare.{null_value}
use lightsql.Exec.Eval.{Row, Outcome, done, failed, panics, ◌>>◌}

-- The first value of each row, which every row of a subquery has.
unfoldable pub first_column : List Row → Outcome (List Value)
first_column [] = done []
first_column ([] ∷ rows) = panics
first_column ((v ∷ row) ∷ rows) = first_column rows >> λ vs. done (v ∷ vs)

-- `drainColumn`: a limit that is reached hides the error behind it.
unfoldable pub drain_column : Option ℕ → List Row × Option Code → Outcome (List Value)
unfolding first_column
drain_column none (rows, e) =
    first_column rows >> λ vs. elim e [ none ↦ done vs | some c ↦ failed c ]
drain_column (some limit) (rows, e) =
    if leb limit (length rows)
    then first_column (take limit rows)
    else first_column rows >> λ vs. elim e [ none ↦ done vs | some c ↦ failed c ]

-- The switch of `scalarOf`.
unfoldable pub one_value : List Value → Outcome Value
one_value [] = done null_value
one_value (v ∷ []) = done v
one_value (v ∷ w ∷ vs) = failed cardinality_violation

-- `scalarOf`
unfoldable pub scalar_of : List Row × Option Code → Outcome Value
unfolding drain_column one_value
scalar_of result = drain_column (some 2) result >> one_value

-- `anyRow`
unfoldable pub any_row : List Row × Option Code → Outcome Bool
any_row (row ∷ rows, e) = done true
any_row ([], some c) = failed c
any_row ([], none) = done false

-- v != negate
abbrev pub differs : Bool → Bool → Bool
differs a true = not a
differs a false = a
