-- ===== src/Exec/Compile/Logic.antt =====
-- The three-valued logic of compiled expressions (internal/exec/expr.go).
use lightsql.Common.{
  ◌≡◌, ◌≢◌, ◌⊎◌, inl, inr, refl, ap, ◌∙◌, Bool, true, false, not, List, [], ◌∷◌, map, if◌then◌else◌,
  Bool-cases, arith,
}
use mathlib.Core.Path.{ap₂}
use lightsql.Types.Bool3.{Bool3, not3, and3, or3, bool3_of, is_true}
use lightsql.Types.Bool3
use lightsql.Types.Value.{Value}
use lightsql.Types.Compare.{is_null, null_value, bool_value, bool3_value, truth, sql_eq, sql_cmp}
use lightsql.Exec.Eval.{
  Row, Outcome, done, failed, panics, ◌>>◌, Eval, Calls, eval_and, eval_or, not_value, in_loop,
  in_result,
}
use lightsql.Exec.Expr.{op_not}
use lightsql.Exec.Compile.{compile_unary}

truth-bool3_value : (b : Bool3) → truth (bool3_value b) ≡ b
unfolding truth bool3_value null_value bool_value bool3_of
truth-bool3_value Bool3.true = refl
truth-bool3_value Bool3.false = refl
truth-bool3_value Bool3.unknown = refl

-- What SQL makes of a list of candidates: x = a OR x = b OR ...
unfoldable pub any3 : List Bool3 → Bool3
any3 [] = Bool3.false
any3 (b ∷ bs) = or3 b (any3 bs)

abbrev pub negated : Bool → Bool3 → Bool3
negated true b = not3 b
negated false b = b

-- What a NULL among the candidates leaves of the answer.
abbrev doubt : Bool → Bool3
doubt true = Bool3.unknown
doubt false = Bool3.false

or3_true : (saw : Bool) (b : Bool3) → or3 (doubt saw) (or3 Bool3.true b) ≡ Bool3.true
unfolding or3
or3_true true b = refl
or3_true false b = refl

or3_unknown : (saw : Bool) (b : Bool3) → or3 (doubt saw) (or3 Bool3.unknown b) ≡ or3 Bool3.unknown b
unfolding or3
or3_unknown true Bool3.true = refl
or3_unknown true Bool3.false = refl
or3_unknown true Bool3.unknown = refl
or3_unknown false Bool3.true = refl
or3_unknown false Bool3.false = refl
or3_unknown false Bool3.unknown = refl

or3_false : (b : Bool3) → or3 Bool3.false b ≡ b
unfolding or3
or3_false Bool3.true = refl
or3_false Bool3.false = refl
or3_false Bool3.unknown = refl

unknown_or3 : (b : Bool3) → b ≢ Bool3.true → or3 Bool3.unknown b ≡ Bool3.unknown
unfolding or3
unknown_or3 Bool3.true h = grind arith
unknown_or3 Bool3.false h = refl
unknown_or3 Bool3.unknown h = refl

negated-true : (negate : Bool) → bool_value (not negate) ≡ bool3_value (negated negate Bool3.true)
unfolding bool3_value not3
negated-true true = refl
negated-true false = refl

negated-doubt :
    (negate saw : Bool)
    → (if saw then null_value else bool_value negate)
      ≡ bool3_value (negated negate (or3 (doubt saw) Bool3.false))
unfolding bool3_value not3 or3
negated-doubt true true = refl
negated-doubt true false = refl
negated-doubt false true = refl
negated-doubt false false = refl

null_negated : (negate : Bool) → null_value ≡ bool3_value (negated negate Bool3.unknown)
unfolding bool3_value not3
null_negated true = refl
null_negated false = refl

Bool3-cases : (b : Bool3) → (b ≡ Bool3.true) ⊎ ((b ≡ Bool3.unknown) ⊎ (b ≡ Bool3.false))
Bool3-cases Bool3.true = inl refl
Bool3-cases Bool3.unknown = inr (inl refl)
Bool3-cases Bool3.false = inr (inr refl)

module _ (calls : Calls) where
  open calls use {floats}

  in_loop-any3 :
      (x : Value) (vals : List Value) (negate saw : Bool)
      → in_loop calls x vals negate saw
        ≡ bool3_value (negated negate (or3 (doubt saw) (any3 (map (sql_eq floats x) vals))))
  unfolding any3 in_loop bool_value
  in_loop-any3 x [] negate saw = negated-doubt negate saw
  in_loop-any3 x (v ∷ vals) negate saw =
      let rest = any3 (map (sql_eq floats x) vals) in
      elim (Bool3-cases (sql_eq floats x v)) [
        | inl e ↦ rw (in_loop, e, or3_true saw rest) (negated-true negate)
        | inr (inl e) ↦ rw (in_loop, e, or3_unknown saw rest) (in_loop-any3 x vals negate true)
        | inr (inr e) ↦ rw (in_loop, e, or3_false rest) (in_loop-any3 x vals negate saw)
      ]

  sql_eq_null : (x v : Value) → is_null x ≡ true → sql_eq floats x v ≡ Bool3.unknown
  unfolding sql_eq
  sql_eq_null x v h = rw (sql_cmp, h) refl

  null_candidates :
      (x v : Value) (vals : List Value)
      → is_null x ≡ true
      → any3 (map (sql_eq floats x) (v ∷ vals)) ≡ Bool3.unknown
  unfolding any3
  null_candidates x v [] h = rw (sql_eq_null x v h) (unfold or3 in refl)
  null_candidates x v (w ∷ vals) h =
      ap₂ or3 (sql_eq_null x v h) (null_candidates x w vals h) ∙ unfold or3 in refl

  -- x IN (a, b, ...) with at least one candidate is x = a OR x = b OR ..., and NOT IN is its negation;
  -- and for a left side that is not NULL also where there is no candidate.
  pub in_result-any3 :
      (x : Value) (vals : List Value) (negate : Bool)
      → (is_null x ≡ false) ⊎ (vals ≢ [])
      → in_result calls x vals negate
        ≡ bool3_value (negated negate (any3 (map (sql_eq floats x) vals)))
  unfolding in_result
  in_result-any3 x vals negate h = elim (Bool-cases (is_null x)) [
    | inl absent ↦ rw absent (some_candidate vals absent h)
    | inr given ↦
        rw given (
          in_loop-any3 x vals negate false
          ∙ rw (or3_false (any3 (map (sql_eq floats x) vals))) refl)
  ]
    where
      some_candidate :
          (vals : List Value)
          → is_null x ≡ true
          → (is_null x ≡ false) ⊎ (vals ≢ [])
          → null_value ≡ bool3_value (negated negate (any3 (map (sql_eq floats x) vals)))
      some_candidate [] absent (inl h) = grind (arith, absent, h)
      some_candidate [] absent (inr h) = elim (h refl) [ ]
      some_candidate (v ∷ vals) absent h =
          rw (null_candidates x v vals absent) (null_negated negate)

  truth-not_value : (v : Value) → truth (not_value calls v) ≡ not3 (truth v)
  unfolding not_value
  truth-not_value v = truth-bool3_value (not3 (truth v))

  and_then_not : Outcome Value → Outcome Value → Outcome Value
  and_then_not lo ro =
      (lo >> λ lv.
      if Bool3.same (truth lv) Bool3.false
      then done (bool_value false)
      else ro >> λ rv. done (bool3_value (and3 (truth lv) (truth rv))))
      >> λ v. done (not_value calls v)

  nots_then_or : Outcome Value → Outcome Value → Outcome Value
  nots_then_or lo ro = (lo >> λ v. done (not_value calls v)) >> λ lv.
      if Bool3.same (truth lv) Bool3.true
      then done (bool_value true)
      else (ro >> λ v. done (not_value calls v)) >> λ rv.
          done (bool3_value (or3 (truth lv) (truth rv)))

  not-and3 : (a b : Bool3) → not3 (and3 a b) ≡ or3 (not3 a) (not3 b)
  unfolding not3 and3 or3
  not-and3 Bool3.true Bool3.true = refl
  not-and3 Bool3.true Bool3.false = refl
  not-and3 Bool3.true Bool3.unknown = refl
  not-and3 Bool3.false b = refl
  not-and3 Bool3.unknown Bool3.true = refl
  not-and3 Bool3.unknown Bool3.false = refl
  not-and3 Bool3.unknown Bool3.unknown = refl

  both_values :
      (lv rv : Value)
      → not_value calls (bool3_value (and3 (truth lv) (truth rv)))
        ≡ bool3_value (or3 (truth (not_value calls lv)) (truth (not_value calls rv)))
  both_values lv rv =
      rw (truth-not_value lv, truth-not_value rv, ← not-and3 (truth lv) (truth rv))
        (unfold not_value in
          ap (λ b. bool3_value (not3 b)) (truth-bool3_value (and3 (truth lv) (truth rv))))

  short : (b : Bool3) → Bool3.same (not3 b) Bool3.true ≡ Bool3.same b Bool3.false
  unfolding not3
  short Bool3.true = refl
  short Bool3.false = refl
  short Bool3.unknown = refl

  not_false : not_value calls (bool_value false) ≡ bool_value true
  unfolding not_value truth bool_value bool3_value not3 bool3_of
  not_false = refl

  demorgan : (lo ro : Outcome Value) → and_then_not lo ro ≡ nots_then_or lo ro
  unfolding and_then_not nots_then_or
  demorgan (failed c) ro = refl
  demorgan panics ro = refl
  demorgan (done lv) ro =
      rw (truth-not_value lv, short (truth lv)) (right (Bool3.same (truth lv) Bool3.false) ro)
    where
      right :
          (b : Bool) (ro : Outcome Value)
          → (if b
                then done (bool_value false)
                else ro >> λ rv. done (bool3_value (and3 (truth lv) (truth rv))))
              >> (λ v. done (not_value calls v))
            ≡ (if b
                then done (bool_value true)
                else (ro >> λ v. done (not_value calls v)) >> λ rv.
                    done (bool3_value (or3 (not3 (truth lv)) (truth rv))))
      right true ro = ap (λ v. done v) not_false
      right false (failed c) = refl
      right false panics = refl
      right false (done rv) =
          ap (λ v. done v)
            (both_values lv rv
              ∙ ap (λ b. bool3_value (or3 b (truth (not_value calls rv)))) (truth-not_value lv))

  -- NOT (a AND b) and (NOT a) OR (NOT b) have the same outcome, where operands raise errors or panic
  -- too: the operators stop at the same left operands.
  pub not_and :
      (l r : Eval) (cells : List Row) (args : List Value) (row : Row)
      → compile_unary calls op_not (eval_and calls l r) cells args row
        ≡ eval_or calls (compile_unary calls op_not l) (compile_unary calls op_not r) cells args row
  unfolding compile_unary eval_and eval_or
  not_and l r cells args row =
      unfold and_then_not nots_then_or in demorgan (l cells args row) (r cells args row)
