-- ===== src/Catalog/References.antt =====
-- internal/catalog/catalog.go: the foreign keys of a table. The rows of it and of the parents are those that a
-- transaction sees.
pub mod Dangling
use lightsql.Common.{
  ℕ, Bool, true, false, List, [], ◌∷◌, Option, none, some, if◌then◌else◌, get_elem?,
  foreign_key_violation,
}
use lightsql.Types.Float.{Float64}
use lightsql.Types.Compare.{equal}
use lightsql.Exec.Eval.{Row}
use lightsql.Catalog.Unique.{Checked, passed, refused, panicked, any_null}

-- `ForeignKey`: its columns, and the rows of its parent with the columns that they are matched on.
pub record ForeignKey : Type 0 where
  pub columns : List ℕ
  pub parent_cols : List ℕ
  pub parent_rows : List Row

module _ (fl : Float64) where
  -- `matchesKey`; `none` is an index out of range.
  unfoldable pub matches_key : Row → List ℕ → Row → List ℕ → Option Bool
  matches_key a [] b b_cols = some true
  matches_key a (ord ∷ a_cols) b [] = none
  matches_key a (ord ∷ a_cols) b (b_ord ∷ b_cols) =
      let rest = matches_key a a_cols b b_cols in
      elim (get_elem? a ord) [
        | none ↦ none
        | some x ↦ elim (get_elem? b b_ord) [
          | none ↦ none
          | some y ↦ if equal fl x y then rest else some false
        ]
      ]

  -- `parentHasKey`
  unfoldable pub parent_has_key : ForeignKey → List Row → Row → Option Bool
  unfolding matches_key
  parent_has_key fk [] child = some false
  parent_has_key fk (prow ∷ prows) child =
      let rest = parent_has_key fk prows child in
      elim (matches_key child fk.columns prow fk.parent_cols) [
        | none ↦ none
        | some true ↦ some true
        | some false ↦ rest
      ]

  -- `checkReference`
  unfoldable pub check_reference : ForeignKey → Row → Checked
  unfolding parent_has_key any_null
  check_reference fk row = elim (any_null row fk.columns) [
    | none ↦ panicked
    | some true ↦ passed
    | some false ↦ elim (parent_has_key fk fk.parent_rows row) [
      | none ↦ panicked
      | some true ↦ passed
      | some false ↦ refused foreign_key_violation
    ]
  ]

  -- The inner loop of `CheckForeignKeys`.
  unfoldable pub check_references : List ForeignKey → Row → Checked
  unfolding check_reference
  check_references [] row = passed
  check_references (fk ∷ fks) row =
      let rest = check_references fks row in
      elim (check_reference fk row) [ passed ↦ rest | refused c ↦ refused c | panicked ↦ panicked ]

  -- `CheckForeignKeys`
  unfoldable pub check_foreign_keys : List ForeignKey → List Row → Checked
  unfolding check_references
  check_foreign_keys fks [] = passed
  check_foreign_keys fks (row ∷ rows) =
      let rest = check_foreign_keys fks rows in
      elim (check_references fks row) [
        | passed ↦ rest
        | refused c ↦ refused c
        | panicked ↦ panicked
      ]
