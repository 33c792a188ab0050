-- ===== src/Exec/Stream/Window.antt =====
-- What LIMIT and OFFSET cut out (internal/exec/exec.go).
use lightsql.Common.{
  ℕ, zero, suc, ◌≡◌, ap, ◌∙◌, List, [], ◌∷◌, Option, none, Code, take, drop, length, leb,
  if◌then◌else◌, arith,
}
use lightsql.Exec.Eval.{Row}
use lightsql.Exec.Stream.{row_then, limit_rest, limit_rows}

limit_rest_lem :
    (n : ℕ) (rows : List Row) (e : Option Code)
    → limit_rest n rows e ≡ (take n rows, if leb n (length rows) then none else e)
unfolding limit_rest
limit_rest_lem zero rows e = ground arith
limit_rest_lem (suc n) [] e = ground arith
limit_rest_lem (suc n) (row ∷ rows) e =
    ap (row_then row) (limit_rest_lem n rows e)
    ∙ ap (λ b. (row ∷ take n rows, if b then none else e)) (same n (length rows))
  where
    same : (a b : ℕ) → leb a b ≡ leb (suc a) (suc b)
    same a b = ground arith

-- OFFSET k LIMIT n gives the rows of its input behind the first k, n of them at most, and the error that
-- ends the input unless the n rows come before it; an OFFSET of all rows or more reads up to it.
pub limit_rows_lem :
    (k n : ℕ) (rows : List Row) (e : Option Code)
    → limit_rows k n rows e ≡ (
      take n (drop k rows),
      if leb k (length rows) then (if leb n (length (drop k rows)) then none else e) else e,
    )
unfolding limit_rows
limit_rows_lem zero n rows e = limit_rest_lem n rows e ∙ ground arith
limit_rows_lem (suc k) zero [] e = ground arith
limit_rows_lem (suc k) (suc n) [] e = ground arith
limit_rows_lem (suc k) n (row ∷ rows) e =
    limit_rows_lem k n rows e
    ∙ ap
        (λ b. (
          take n (drop k rows),
          if b then (if leb n (length (drop k rows)) then none else e) else e,
        ))
        (same k (length rows))
  where
    same : (a b : ℕ) → leb a b ≡ leb (suc a) (suc b)
    same a b = ground arith
