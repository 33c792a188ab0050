-- ===== src/Exec/Sort.antt =====
-- internal/exec/exec.go: sortOp, drained, and the order of one ORDER BY term. slices.SortStableFunc of the Go
-- library is a stable insertion sort.
pub mod Stable
pub mod Terms
pub mod Keys
use Prim.Native.Nat.{Ordering, lt, eq, gt}
use lightsql.Common.{
  Bool, true, false, ◌&&◌, ◌||◌, not, List, [], ◌∷◌, map, Option, none, some, if◌then◌else◌, Code,
  Result, ok, err, ◌>>=◌,
}
use lightsql.Types.Float.{Float64}
use lightsql.Types.Value.{Value}
use lightsql.Types.Compare.{compare, is_null}
use lightsql.Types.Compare.Orders.{flip}
use lightsql.Exec.Eval.{Row}

-- `sortKey`: the closure, which decides or reports an error, and the direction of the term.
pub record SortKey : Type 0 where
  pub eval : Row → Result Value
  pub desc : Bool
  pub nulls_first : Bool

-- `entry` of drainAndSort
pub record Entry : Type 0 where
  pub row : Row
  pub keys : List Value

module _ {E : Type 0} (cmp : E → E → Ordering) where
  unfoldable pub insert_sorted : E → List E → List E
  insert_sorted x [] = x ∷ []
  insert_sorted x (y ∷ ys) =
      let rest = insert_sorted x ys in elim (cmp x y) [ gt ↦ y ∷ rest | _ ↦ x ∷ y ∷ ys ]

  -- `slices.SortStableFunc`
  unfoldable pub sort_stable : List E → List E
  unfolding insert_sorted
  sort_stable [] = []
  sort_stable (x ∷ xs) = insert_sorted x (sort_stable xs)

module _ (fl : Float64) where
  -- `compareSortKey`
  unfoldable pub compare_sort_key : Bool → Bool → Value → Value → Ordering
  compare_sort_key desc nulls_first a b =
      if is_null a && is_null b
      then eq
      else if is_null a
      then (if nulls_first then lt else gt)
      else if is_null b
      then (if nulls_first then gt else lt)
      else if desc
      then flip (compare fl a b)
      else compare fl a b

  -- The comparison that drainAndSort sorts by: the first term that decides.
  unfoldable pub compare_keys : List SortKey → List Value → List Value → Ordering
  unfolding compare_sort_key
  compare_keys (k ∷ ks) (a ∷ as_) (b ∷ bs) =
      let rest = compare_keys ks as_ bs in
      elim (compare_sort_key k.desc k.nulls_first a b) [ lt ↦ lt | gt ↦ gt | eq ↦ rest ]
  compare_keys _ _ _ = eq

  unfoldable pub eval_keys : List SortKey → Row → Result (List Value)
  eval_keys [] row = ok []
  eval_keys (k ∷ ks) row = k.eval row >>= λ v. eval_keys ks row >>= λ vs. ok (v ∷ vs)

  -- The first loop of `drainAndSort`.
  unfoldable pub sort_entries : List SortKey → List Row → Result (List Entry)
  unfolding eval_keys
  sort_entries ks [] = ok []
  sort_entries ks (row ∷ rows) = eval_keys ks row >>= λ keys.
      sort_entries ks rows >>= λ entries. ok (record { row = row; keys = keys } ∷ entries)

  abbrev pub by_keys : List SortKey → Entry → Entry → Ordering
  by_keys ks a b = compare_keys ks a.keys b.keys

  -- `drainAndSort`, and the rows that `Next` then gives.
  unfoldable pub sort_rows : List SortKey → List Row × Option Code → List Row × Option Code
  unfolding sort_entries sort_stable compare_keys
  sort_rows ks (rows, e) = elim (sort_entries ks rows) [
    | err c ↦ ([], some c)
    | ok entries ↦ elim e [
      | some c ↦ ([], some c)
      | none ↦ (map (λ entry. entry.row) (sort_stable (by_keys ks) entries), none)
    ]
  ]
