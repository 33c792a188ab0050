-- ===== src/Exec/Group/Members.antt =====
-- A group folds the rows of its key, in their order (internal/exec/exec.go).
use lightsql.Common.{List, [], ◌∷◌, Option, none, some, if◌then◌else◌}
use lightsql.Builtin.Keys.{Keys}
use lightsql.Builtin.Keys.Laws.{IsKeys}

module _ {K V A : Type 0} (ops : Keys K) (law : IsKeys ops) (start : A) (add : A → V → A) where
  -- The accumulators of the group of a key.
  unfoldable pub group_of : K → List (K × A) → Option A
  group_of k [] = none
  group_of k ((got, a) ∷ groups) =
      let rest = group_of k groups in if ops.same_key got k then some a else rest

  abbrev pub added : Option A → V → Option A
  added none v = some (add start v)
  added (some a) v = some (add a v)

  -- The values of the rows of a key, added one after the other.
  unfoldable pub fold_key : K → Option A → List (K × V) → Option A
  fold_key k o [] = o
  fold_key k o ((key, v) ∷ rows) = fold_key k (if ops.same_key key k then added o v else o) rows
