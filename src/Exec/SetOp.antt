-- ===== src/Exec/SetOp.antt =====
-- internal/exec/setop.go: UNION, INTERSECT and EXCEPT. An operator is what it produces when it is drained:
-- its rows in order, and the error that ends them, if one does. A context that is cancelled is such an error.
pub mod Counts
use lightsql.Common.{
  ℕ, ◌+◌, ◌-◌, Bool, true, false, ◌&&◌, ◌||◌, not, List, [], ◌∷◌, ◌++◌, Option, none, some,
  if◌then◌else◌, Code,
}
use lightsql.Builtin.Keys.{
  Keys, KeySet, new_key_set, add_key, KeyCounts, new_key_counts, add_count, take_count, has_key,
}

-- `SetOpKind`
pub data SetOpKind : Type 0 where
  set_union set_intersect set_except : SetOpKind

abbrev pub Rows : Type 0 → Type 0
Rows K = List K × Option Code

module _ {K : Type 0} (ops : Keys K) where
  -- `setOpOp`: what of it changes while rows are kept.
  pub record Seen : Type 0 where
    pub seen : KeySet ops
    pub counts : KeyCounts ops

  -- A row that is in the output if it has not been there before.
  abbrev pub once : Bool → K → Seen → Bool × Seen
  once wanted row o =
      let (seen, new) = add_key ops o.seen row in
      if wanted then (new, record o { seen = seen }) else (false, o)

  -- One copy of a row is taken from the right side.
  abbrev pub matched : Bool → K → Seen → Bool × Seen
  matched wanted row o =
      let (counts, found) = take_count ops o.counts row in
      ((if wanted then found else not found), record o { counts = counts })

  -- `keep`
  unfoldable pub keep_row : SetOpKind → Bool → K → Seen → Bool × Seen
  keep_row set_union true row o = (true, o)
  keep_row set_union false row o = once true row o
  keep_row set_intersect true row o = matched true row o
  keep_row set_intersect false row o = once (has_key ops o.counts row) row o
  keep_row set_except true row o = matched false row o
  keep_row set_except false row o = once (not (has_key ops o.counts row)) row o

  -- The loops of `Next`, until there is no candidate left.
  unfoldable pub kept : SetOpKind → Bool → List K → Seen → List K
  unfolding keep_row
  kept op all [] o = []
  kept op all (row ∷ rows) o =
      let (good, o') = keep_row op all row o in
      let rest = kept op all rows o' in if good then row ∷ rest else rest

  -- The loop of `loadRight`.
  unfoldable pub load_right : List K → KeyCounts ops → KeyCounts ops
  load_right [] c = c
  load_right (row ∷ rows) c = load_right rows (add_count ops c row)

  -- The candidates of `nextCandidate`: of the left side, and for a union of the right side behind it.
  unfoldable pub candidates : SetOpKind → Rows K → Rows K → Rows K
  candidates set_union (ls, none) (rs, e) = (ls ++ rs, e)
  candidates _ l r = l

  abbrev pub is_union : SetOpKind → Bool
  is_union set_union = true
  is_union _ = false

  abbrev pub fresh : KeyCounts ops → Seen
  fresh c = record { seen = new_key_set ops; counts = c }

  -- `Next`, called until it has no row: a right side that fails to load gives no row.
  unfoldable pub set_op : SetOpKind → Bool → Rows K → Rows K → Rows K
  unfolding kept load_right candidates
  set_op op all l r =
      let (rows, e) = candidates op l r in
      let counts =
        if is_union op then new_key_counts ops else load_right r.0 (new_key_counts ops) in
      elim (if is_union op then none else r.1) [
        | some c ↦ ([], some c)
        | none ↦ (kept op all rows (fresh counts), e)
      ]
