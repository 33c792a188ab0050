-- ===== src/Exec/Group.antt =====
-- internal/exec/exec.go: aggregateOp, drained. What a row is grouped by and what it adds is computed first; the
-- groups that the index holds for a hash are the groups whose keys have it.
pub mod Members
use lightsql.Common.{
  ℕ, Bool, true, false, ◌&&◌, List, [], ◌∷◌, ◌++◌, map, Option, none, some, ◌==◌, if◌then◌else◌,
  Code, Result, ok, err, ◌>>=◌,
}
use lightsql.Builtin.Keys.{Keys}

module _ {K V A : Type 0} (ops : Keys K) (start : A) (add : A → V → A) where
  -- `aggGroup`
  abbrev pub Group : Type 0
  Group = K × A

  abbrev pub belongs : K → K → Bool
  belongs got key = (ops.hash got == ops.hash key) && ops.same_key got key

  -- `find`, and what the row adds to the accumulators of the group.
  unfoldable pub add_row : List Group → K → V → List Group
  add_row [] key v = (key, add start v) ∷ []
  add_row ((got, a) ∷ groups) key v =
      let rest = add_row groups key v in
      if belongs got key then (got, add a v) ∷ groups else (got, a) ∷ rest

  -- The loop of `build`.
  unfoldable pub group_rows : List Group → List (K × V) → List Group
  unfolding add_row
  group_rows groups [] = groups
  group_rows groups ((key, v) ∷ rows) = group_rows (add_row groups key v) rows

  -- `build`: without GROUP BY, which `no_key` is the key of, there is a group even if there is no row.
  unfoldable pub build_groups : Option K → List (K × V) → List Group
  unfolding group_rows
  build_groups no_key rows = elim (group_rows [] rows) [
    | [] ↦ elim no_key [ none ↦ [] | some key ↦ (key, start) ∷ [] ]
    | g ∷ groups ↦ g ∷ groups
  ]
