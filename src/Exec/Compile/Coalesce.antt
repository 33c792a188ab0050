-- ===== src/Exec/Compile/Coalesce.antt =====
-- COALESCE is the CASE that SQL defines it as (internal/exec/expr.go).
use lightsql.Common.{
  ℕ, ◌≡◌, refl, ap, Bool, true, false, not, List, [], ◌∷◌, some, if◌then◌else◌, Result, ok, err,
  ◌>>=◌,
}
use mathlib.Core.Path.{fun_ext}
use lightsql.Types.Bool3.{bool3_of, is_true}
use lightsql.Types.Value.{Value}
use lightsql.Types.Compare.{is_null, bool_value, truth}
use lightsql.Exec.Eval.{Outcome, done, failed, panics, ◌>>◌, Eval, Calls, eval_coalesce, eval_case}
use lightsql.Exec.Expr.{
  Expr, is_null_expr, case_expr, coalesce, Exprs, no_more, then_expr, no_arm, when_then,
}
use lightsql.Exec.Subquery.{differs}
use lightsql.Exec.Compile.{compile, compile_all, first_eval}

null_choice :
    (b : Bool) (v : Value) (rest : Outcome Value)
    → (if b then rest else done v) ≡ (if is_true (truth (bool_value (not b))) then done v else rest)
unfolding truth bool_value bool3_of is_true
null_choice true v rest = refl
null_choice false v rest = refl

module _ (calls : Calls) where
  eval_coalesce-case :
      (a : Eval) (tail : List Eval)
      → eval_coalesce calls (a ∷ tail)
        ≡ eval_case calls
            ((
              (λ cells args row.
                  a cells args row >> λ v. done (bool_value (differs (is_null v) true))),
              a,
            )
              ∷ [])
            (some (eval_coalesce calls tail))
  eval_coalesce-case a tail = fun_ext λ cells. fun_ext λ args. fun_ext λ row.
      unfold eval_coalesce eval_case in
      go (a cells args row) (eval_coalesce calls tail cells args row)
    where
      go :
          (o rest : Outcome Value)
          → (o >> λ v. if is_null v then rest else done v) ≡ (
              (o >> λ v. done (bool_value (differs (is_null v) true))) >> λ v.
              if is_true (truth v) then o else rest)
      go (failed c) rest = refl
      go panics rest = refl
      go (done v) rest = null_choice (is_null v) v rest

  compiled :
      (r : Result Eval) (rs : Result (List Eval))
      → ((r >>= λ ev. rs >>= λ evs. ok (ev ∷ evs)) >>= λ evs. ok (eval_coalesce calls evs)) ≡ (
          ((r >>= λ ev.
          ok λ cells args row.
            ev cells args row >> λ v. done (bool_value (differs (is_null v) true)))
            >>= λ c. r >>= λ v. ok [] >>= λ evs. ok ((c, v) ∷ evs))
          >>= λ arm_evals.
              ((rs >>= λ evs. ok (eval_coalesce calls evs)) >>= λ ev.
              ok [] >>= λ evs. ok (ev ∷ evs))
              >>= λ else_evals. ok (eval_case calls arm_evals (first_eval calls else_evals)))
  compiled (err c) rs = refl
  compiled (ok ev) (err c) = refl
  compiled (ok ev) (ok evs) = ap (λ e. ok e) (eval_coalesce-case ev evs)

  -- COALESCE(x, ...) compiles to what CASE WHEN x IS NOT NULL THEN x ELSE COALESCE(...) END compiles to:
  -- the same error, or the same closure.
  pub coalesce_is_case :
      (depth : ℕ) (x : Expr) (es : Exprs)
      → compile calls depth (coalesce (then_expr x es))
        ≡ compile calls depth
            (case_expr (when_then (is_null_expr x true) x no_arm) (then_expr (coalesce es) no_more))
  unfolding compile
  coalesce_is_case depth x es = compiled (compile calls depth x) (compile_all calls depth es)
