-- ===== src/Exec/Stream.antt =====
-- internal/exec/exec.go: the operators that pass rows on, drained: filterOp, projectOp, limitOp and distinctOp.
-- A closure either gives a value or reports an error.
pub mod Window
use lightsql.Common.{
  ℕ, zero, suc, ◌-◌, Bool, true, false, not, List, [], ◌∷◌, ◌++◌, Option, none, some, if◌then◌else◌,
  Code, take, Result, ok, err, ◌>>=◌,
}
use lightsql.Types.Bool3.{is_true}
use lightsql.Types.Value.{Value}
use lightsql.Types.Compare.{truth}
use lightsql.Builtin.Keys.{Keys, KeySet, new_key_set, add_key}
use lightsql.Exec.Eval.{Row}

abbrev pub Rows : Type 0
Rows = List Row × Option Code

abbrev pub row_then : Row → Rows → Rows
row_then row (rows, e) = (row ∷ rows, e)

-- `filterOp.Next`
unfoldable pub filter_rows : (Row → Result Value) → List Row → Option Code → Rows
filter_rows pred [] e = ([], e)
filter_rows pred (row ∷ rows) e =
    let rest = filter_rows pred rows e in
    elim (pred row) [
      | err c ↦ ([], some c)
      | ok v ↦ if is_true (truth v) then row_then row rest else rest
    ]

-- The loop of `projectOp.Next` over the select list.
unfoldable pub project_row : List (Row → Result Value) → Row → Result Row
project_row [] row = ok []
project_row (eval ∷ evals) row = eval row >>= λ v. project_row evals row >>= λ vs. ok (v ∷ vs)

-- `projectOp.Next`
unfoldable pub project_rows : List (Row → Result Value) → List Row → Option Code → Rows
unfolding project_row
project_rows evals [] e = ([], e)
project_rows evals (row ∷ rows) e =
    let rest = project_rows evals rows e in
    elim (project_row evals row) [ err c ↦ ([], some c) | ok out ↦ row_then out rest ]

-- The rest of `limitOp.Next`: a limit that is reached asks for no more rows.
unfoldable pub limit_rest : ℕ → List Row → Option Code → Rows
limit_rest zero rows e = ([], none)
limit_rest (suc n) [] e = ([], e)
limit_rest (suc n) (row ∷ rows) e = row_then row (limit_rest n rows e)

-- `limitOp.Next`, with its loop over the offset.
unfoldable pub limit_rows : (offset remaining : ℕ) → List Row → Option Code → Rows
unfolding limit_rest
limit_rows zero n rows e = limit_rest n rows e
limit_rows (suc k) n [] e = ([], e)
limit_rows (suc k) n (row ∷ rows) e = limit_rows k n rows e

-- `distinctOp.Next`, where `key` computes what a row is told apart by: for a plain DISTINCT its first
-- `width` values, which are also what is given on.
unfoldable pub distinct_rows :
    (ops : Keys (List Value))
    → (Row → Result (List Value))
    → ℕ
    → KeySet ops
    → List Row
    → Option Code
    → Rows
distinct_rows ops key width seen [] e = ([], e)
distinct_rows ops key width seen (row ∷ rows) e = elim (key row) [
  | err c ↦ ([], some c)
  | ok k ↦
      let (seen', new) = add_key ops seen k in
      let rest = distinct_rows ops key width seen' rows e in
      if new then row_then (take width row) rest else rest
]
