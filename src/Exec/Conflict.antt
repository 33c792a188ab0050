-- ===== src/Exec/Conflict.antt =====
-- internal/exec/conflict.go: the search for the version that a proposed row collides with; and from
-- internal/exec/exec.go the CHECK constraints that a row has to satisfy. `anyNullAt` is anyNull of the catalog.
pub mod Search
pub mod Insert
use lightsql.Common.{
  ℕ, Bool, true, false, ◌&&◌, List, [], ◌∷◌, ◌++◌, map, Option, none, some, if◌then◌else◌,
  get_elem?, Code, Result, ok, err, check_violation,
}
use lightsql.Types.Bool3
use lightsql.Types.Bool3.{Bool3}
use lightsql.Types.Value.{Value}
use lightsql.Types.Float.{Float64}
use lightsql.Types.Compare.{equal, truth}
use lightsql.Exec.Eval.{Row}
use lightsql.Catalog.Unique.{Checked, passed, refused, panicked, Constraint, Index, any_null}

-- `runChecks`, over compiled predicates.
unfoldable pub run_checks : List (Row → Result Value) → Row → Checked
run_checks [] row = passed
run_checks (pred ∷ preds) row =
    let rest = run_checks preds row in
    elim (pred row) [
      | err c ↦ refused c
      | ok v ↦ elim (truth v) [
        | Bool3.false ↦ refused check_violation
        | Bool3.unknown ↦ rest
        | Bool3.true ↦ rest
      ]
    ]

-- The columns of the unique indexes that are not partial.
unfoldable pub total_indexes : {W : Type 0} → List (Index W) → List (List ℕ)
total_indexes [] = []
total_indexes (ix ∷ ixs) =
    let rest = total_indexes ixs in
    if ix.unique then elim ix.where_clause [ none ↦ ix.columns ∷ rest | some w ↦ rest ] else rest

-- The keys that `find` consults.
unfoldable pub conflict_keys :
    {W : Type 0} → (arbiter : List ℕ) → List Constraint → List (Index W) → List (List ℕ)
unfolding total_indexes
conflict_keys [] constraints indexes = map (λ c. c.columns) constraints ++ total_indexes indexes
conflict_keys arbiter constraints indexes = arbiter ∷ []

module _ (fl : Float64) where
  -- `sameAt`; `none` is an index out of range.
  unfoldable pub same_at : Row → Row → List ℕ → Option Bool
  same_at a b [] = some true
  same_at a b (ord ∷ cols) =
      let rest = same_at a b cols in
      elim (get_elem? a ord) [
        | none ↦ none
        | some x ↦ elim (get_elem? b ord) [
          | none ↦ none
          | some y ↦ if equal fl x y then rest else some false
        ]
      ]

  module _ {V : Type 0} where
    -- The loop of `find` over the versions, each with its values; `none` is a panic.
    unfoldable pub find_version : List ℕ → List (V × Row) → Row → Option (Option V)
    unfolding any_null same_at
    find_version cols [] row = some none
    find_version cols ((v, vals) ∷ versions) row =
        let rest = find_version cols versions row in
        elim (any_null vals cols) [
          | none ↦ none
          | some true ↦ rest
          | some false ↦ elim (same_at vals row cols) [
            | none ↦ none
            | some true ↦ some (some v)
            | some false ↦ rest
          ]
        ]

    -- `find`, with the loop over the keys.
    unfoldable pub find : List (List ℕ) → List (V × Row) → Row → Option (Option V)
    unfolding any_null find_version
    find [] versions row = some none
    find (cols ∷ keys) versions row =
        let rest = find keys versions row in
        elim (any_null row cols) [
          | none ↦ none
          | some true ↦ rest
          | some false ↦ elim (find_version cols versions row) [
            | none ↦ none
            | some (some v) ↦ some (some v)
            | some none ↦ rest
          ]
        ]
