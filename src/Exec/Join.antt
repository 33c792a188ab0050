-- ===== src/Exec/Join.antt =====
-- internal/exec/exec.go: joinOp, drained. A predicate either decides a pair of rows or reports an error, and a
-- row has the width of its side.
pub mod Meaning
use lightsql.Common.{
  ℕ, zero, suc, ◌+◌, Bool, true, false, ◌&&◌, ◌||◌, not, List, [], ◌∷◌, ◌++◌, map, Option, none,
  some, if◌then◌else◌, Code, Result, ok, err,
}
use lightsql.Types.Value.{Value}
use lightsql.Types.Compare.{null_value}
use lightsql.Exec.Eval.{Row}

-- A row of the right side, and whether it ever found a partner.
abbrev pub Marked : Type 0
Marked = Row × Bool

-- What the current left row gives: its joined rows, the right rows with their marks, whether it found a
-- partner, and the error that ends it.
pub record Pass : Type 0 where
  pub rows : List Row
  pub right : List Marked
  pub found : Bool
  pub failure : Option Code

abbrev pub nulls : ℕ → Row
nulls zero = []
nulls (suc n) = null_value ∷ nulls n

abbrev pub unmatched : List Marked → List Row
unmatched [] = []
unmatched ((r, true) ∷ right) = unmatched right
unmatched ((r, false) ∷ right) = r ∷ unmatched right

abbrev pub mark : Row → Marked
mark r = (r, false)

module _ (decide : Row → Result Bool) (keep_left keep_right : Bool)
    (left_width right_width : ℕ) where
  -- `match`
  abbrev pub match_pair : Row → Row → Result Bool
  match_pair l r = decide (l ++ r)

  -- `emit`, for a left or a right row without a partner.
  abbrev pub emit_left : Row → Row
  emit_left l = l ++ nulls right_width

  abbrev pub emit_right : Row → Row
  emit_right r = nulls left_width ++ r

  abbrev pub with_pair : Row → Row → Bool → Pass → Pass
  with_pair l r seen p = record p {
    rows = (l ++ r) ∷ p.rows;
    right = (r, true) ∷ p.right;
    found = true;
  }

  abbrev pub without_pair : Row → Bool → Pass → Pass
  without_pair r seen p = record p { right = (r, seen) ∷ p.right }

  -- The loop of `Next` over the right rows, for one left row.
  unfoldable pub match_right : Row → List Marked → Pass
  match_right l [] = record { rows = []; right = []; found = false; failure = none }
  match_right l ((r, seen) ∷ right) =
      let rest = match_right l right in
      elim (match_pair l r) [
        | err c ↦ record { rows = []; right = []; found = false; failure = some c }
        | ok true ↦ with_pair l r seen rest
        | ok false ↦ without_pair r seen rest
      ]

  abbrev pub alone : Row → Pass → List Row
  alone l p = if keep_left && not p.found then emit_left l ∷ [] else []

  abbrev pub behind : List Row → List Row × Option Code → List Row × Option Code
  behind rows (rest, e) = (rows ++ rest, e)

  -- The outer loop of `Next`, and behind it the drain.
  unfoldable pub join_rows : List Row × Option Code → List Marked → List Row × Option Code
  unfolding match_right
  join_rows ([], some c) right = ([], some c)
  join_rows ([], none) right = ((if keep_right then map emit_right (unmatched right) else []), none)
  join_rows (l ∷ ls, e) right =
      let p = match_right l right in
      let rest = join_rows (ls, e) p.right in
      elim p.failure [ some c ↦ (p.rows, some c) | none ↦ behind (p.rows ++ alone l p) rest ]

  -- `Next`, called until it has no row.
  unfoldable pub join : List Row × Option Code → List Row × Option Code → List Row × Option Code
  unfolding join_rows
  join l (rows, some c) = ([], some c)
  join l (rows, none) = join_rows l (map mark rows)
