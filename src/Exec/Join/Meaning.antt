-- ===== src/Exec/Join/Meaning.antt =====
-- What the loop of joinOp gives, row by row (internal/exec/exec.go).
use lightsql.Common.{
  ℕ, ◌≡◌, refl, sym, ap, ◌∙◌, Bool, true, false, ◌&&◌, ◌||◌, not, List, [], ◌∷◌, ◌++◌, map, Option,
  none, some, if◌then◌else◌, Code, Result, ok, keep, append_assoc, arith, Bool-cases, inl, inr,
}
use lightsql.Exec.Eval.{Row}
use lightsql.Exec.Join.{
  Marked, Pass, nulls, unmatched, mark, match_right, alone, behind, join_rows, join,
}

-- Whether a row of a list passes a test.
unfoldable pub any : (Row → Bool) → List Row → Bool
any p [] = false
any p (r ∷ rows) = p r || any p rows

module _ (p : Row → Bool) (keep_left keep_right : Bool) (left_width right_width : ℕ) where
  -- The joined rows of a left row, or the row itself with NULLs behind it.
  abbrev pub partners : List Row → Row → List Row
  partners rights l =
      map (λ r. l ++ r) (keep (λ r. p (l ++ r)) rights)
      ++ (if keep_left && not (any (λ r. p (l ++ r)) rights)
          then (l ++ nulls right_width) ∷ []
          else [])

  unfoldable pub each_left : List Row → List Row → List Row
  each_left rights [] = []
  each_left rights (l ∷ ls) = partners rights l ++ each_left rights ls

  -- The right rows without a partner, with NULLs before them.
  abbrev pub lonely : List Row → List Row → List Row
  lonely rights ls =
      if keep_right
      then map (λ r. nulls left_width ++ r) (keep (λ r. not (any (λ l. p (l ++ r)) ls)) rights)
      else []

  module _ (decide : Row → Result Bool) (decides : (row : Row) → decide row ≡ ok (p row)) where
    again : Row → Marked → Marked
    again l (r, seen) = (r, seen || p (l ++ r))

    rows_of : List Marked → List Row
    rows_of [] = []
    rows_of ((r, seen) ∷ right) = r ∷ rows_of right

    passed : Row → List Marked → Pass
    passed l right = record {
      rows = map (λ r. l ++ r) (keep (λ r. p (l ++ r)) (rows_of right));
      right = map (again l) right;
      found = any (λ r. p (l ++ r)) (rows_of right);
      failure = none;
    }

    or_true : (b : Bool) → b || true ≡ true
    or_true b = ground arith

    or_false : (b : Bool) → b || false ≡ b
    or_false b = ground arith

    match_right-passed :
        (l : Row) (right : List Marked)
        → match_right decide keep_left keep_right left_width right_width l right ≡ passed l right
    unfolding passed match_right keep again any rows_of
    match_right-passed l [] = refl
    match_right-passed l ((r, seen) ∷ right) = elim (Bool-cases (p (l ++ r))) [
      | inl yes_pair ↦
          rw (match_right, decides (l ++ r), yes_pair, match_right-passed l right)
            (rw (or_true seen) refl)
      | inr no_pair ↦
          rw (match_right, decides (l ++ r), no_pair, match_right-passed l right)
            (rw (or_false seen) refl)
    ]

    or_assoc : (a b c : Bool) → (a || b) || c ≡ a || (b || c)
    or_assoc a b c = ground arith

    -- The right rows that have found no partner, once the rows `ls` have been tried too.
    lonely_of : List Row → List Marked → List Row
    lonely_of ls [] = []
    lonely_of ls ((r, seen) ∷ right) =
        let rest = lonely_of ls right in if seen || any (λ l. p (l ++ r)) ls then rest else r ∷ rest

    lonely_of-nil : (right : List Marked) → lonely_of [] right ≡ unmatched right
    unfolding lonely_of any
    lonely_of-nil [] = refl
    lonely_of-nil ((r, true) ∷ right) = lonely_of-nil right
    lonely_of-nil ((r, false) ∷ right) = ap (λ (t : List Row). r ∷ t) (lonely_of-nil right)

    lonely_of-again :
        (l : Row) (ls : List Row) (right : List Marked)
        → lonely_of ls (map (again l) right) ≡ lonely_of (l ∷ ls) right
    unfolding lonely_of again any
    lonely_of-again l ls [] = refl
    lonely_of-again l ls ((r, seen) ∷ right) =
        rw (lonely_of-again l ls right, or_assoc seen (p (l ++ r)) (any (λ l'. p (l' ++ r)) ls))
          refl

    rows_of-again : (l : Row) (right : List Marked) → rows_of (map (again l) right) ≡ rows_of right
    unfolding rows_of again
    rows_of-again l [] = refl
    rows_of-again l ((r, seen) ∷ right) = ap (λ (t : List Row). r ∷ t) (rows_of-again l right)

    rows_of-mark : (rows : List Row) → rows_of (map mark rows) ≡ rows
    unfolding rows_of
    rows_of-mark [] = refl
    rows_of-mark (r ∷ rows) = ap (λ (t : List Row). r ∷ t) (rows_of-mark rows)

    lonely_of-mark :
        (ls rows : List Row)
        → lonely_of ls (map mark rows) ≡ keep (λ r. not (any (λ l. p (l ++ r)) ls)) rows
    unfolding lonely_of keep
    lonely_of-mark ls [] = refl
    lonely_of-mark ls (r ∷ rows) = elim (Bool-cases (any (λ l. p (l ++ r)) ls)) [
      | inl partner ↦ rw partner (lonely_of-mark ls rows)
      | inr no_partner ↦ rw no_partner (ap (λ (t : List Row). r ∷ t) (lonely_of-mark ls rows))
    ]

    padded : List Row → List Row
    padded rows = if keep_right then map (λ r. nulls left_width ++ r) rows else []

    after_pass : Row → List Row → Pass → List Row × Option Code
    after_pass l ls pass = elim pass.failure [
      | some c ↦ (pass.rows, some c)
      | none ↦
          behind decide keep_left keep_right left_width right_width
            (pass.rows ++ alone decide keep_left keep_right left_width right_width l pass)
            (join_rows decide keep_left keep_right left_width right_width (ls, none) pass.right)
    ]

    join_rows-step :
        (l : Row) (ls : List Row) (right : List Marked)
        → join_rows decide keep_left keep_right left_width right_width (l ∷ ls, none) right
          ≡ after_pass l ls (match_right decide keep_left keep_right left_width right_width l right)
    unfolding join_rows after_pass
    join_rows-step l ls right = refl

    join_rows-each_left :
        (ls : List Row) (right : List Marked)
        → join_rows decide keep_left keep_right left_width right_width (ls, none) right
          ≡ (each_left (rows_of right) ls ++ padded (lonely_of ls right), none)
    join_rows-each_left [] right =
        unfold join_rows each_left padded in rw (lonely_of-nil right) refl
    join_rows-each_left (l ∷ ls) right =
        join_rows-step l ls right
        ∙ ap (after_pass l ls) (match_right-passed l right)
        ∙ step (join_rows-each_left ls (map (again l) right))
      where
        step :
            join_rows decide keep_left keep_right left_width right_width
                (ls, none)
                (map (again l) right)
              ≡ (
                each_left (rows_of (map (again l) right)) ls
                    ++ padded (lonely_of ls (map (again l) right)),
                none,
              )
            → after_pass l ls (passed l right)
              ≡ (each_left (rows_of right) (l ∷ ls) ++ padded (lonely_of (l ∷ ls) right), none)
        step e =
            unfold after_pass passed each_left in
            (ap
                (behind decide keep_left keep_right left_width right_width
                  (partners (rows_of right) l))
                e
              ∙ rw (rows_of-again l right, lonely_of-again l ls right)
                  (ap (λ (t : List Row). (t, none))
                    (sym (
                      append_assoc (partners (rows_of right) l) (each_left (rows_of right) ls)
                        (padded (lonely_of (l ∷ ls) right))))))

  -- A join whose predicate reports no error gives, for each left row in order, its pairs with the right
  -- rows that the predicate accepts, and for a LEFT or FULL join the row with NULLs if it has none;
  -- behind them, for a RIGHT or FULL join, the right rows that no left row was paired with, with NULLs.
  pub join_meaning :
      (decide : Row → Result Bool) (ls rs : List Row)
      → ((row : Row) → decide row ≡ ok (p row))
      → join decide keep_left keep_right left_width right_width (ls, none) (rs, none)
        ≡ (each_left rs ls ++ lonely rs ls, none)
  unfolding join
  join_meaning decide ls rs decides =
      join_rows-each_left decide decides ls (map mark rs)
      ∙ rw (rows_of-mark decide decides rs, lonely_of-mark decide decides ls rs)
          (unfold padded in refl)
