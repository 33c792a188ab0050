-- ===== src/Exec/Eval.antt =====
-- internal/exec/expr.go: what a compiled expression does. A closure is a function of the rows of the
-- enclosing queries, innermost first, of the arguments of the statement and of the current row. What an
-- expression takes from other packages is an interface.
use lightsql.Common.{
  ℕ, Bool, true, false, ◌&&◌, ◌||◌, not, List, [], ◌∷◌, Option, none, some, if◌then◌else◌, Bytes,
  Code, division_by_zero, Result, ok, err,
}
use lightsql.Common.Int.{ℤ, pos, ◌+ℤ◌, ◌-ℤ◌, ◌*ℤ◌, neg_ℤ, quo, rem, ℤ_eq}
use lightsql.Types.Bool3.{Bool3, not3, and3, or3, bool3_of, is_true}
use lightsql.Types.Bool3
use lightsql.Types.Word.{word_of, int_of}
use lightsql.Types.Overflow.{wrap}
use lightsql.Types.Value.{Value, Kind, kind_eq, int, float}
use lightsql.Types.Value
use lightsql.Types.Numeric.{add_numeric, sub_numeric, mul_numeric, mod_numeric, neg_numeric}
use lightsql.Types.Division.{div_numeric}
use lightsql.Types.Float.{Float64}
use lightsql.Types.Compare.{is_null, as_float, sql_eq, truth, null_value, bool_value, bool3_value}

abbrev pub Row : Type 0
Row = List Value

-- A call that returns a value, an error, or not at all because it panics.
pub data Outcome (A : Type 0) : Type 0 where
  done : A → Outcome A
  failed : Code → Outcome A
  panics : Outcome A

infixl 5 ◌>>◌
abbrev pub ◌>>◌ : {A B : Type 0} → Outcome A → (A → Outcome B) → Outcome B
done a >> f = f a
failed c >> f = failed c
panics >> f = panics

abbrev pub of_result : {A : Type 0} → Result A → Outcome A
of_result (ok a) = done a
of_result (err c) = failed c

abbrev pub or_panics : {A : Type 0} → Option A → Outcome A
or_panics none = panics
or_panics (some a) = done a

-- `Eval`
abbrev pub Eval : Type 0
Eval = List Row → List Value → Row → Outcome Value

-- A piece of a LIKE pattern.
pub data Piece : Type 0 where
  literal : Bytes → Piece
  any_run any_one : Piece

-- A function of the registry of package builtin.
pub record Scalar : Type 0 where
  pub strict : Bool
  pub fn : List Value → Result Value

-- What an expression calls: package types' casts and JSON operators, package regexp, the registry of
-- scalar functions, the clock of the transaction, and the rows of a subplan, drained, which reads the
-- rows of the enclosing queries and the arguments. A subplan is a number.
pub record Calls : Type 1 where
  pub floats : Float64
  pub cast : Value → Kind → Result Value
  pub json_field : Value → Value → Value
  pub json_text : Value → Value → Value
  pub json_contains : Value → Value → Bool3
  pub compile_pattern : List Piece → Option (Bytes → Bool)
  pub lookup_scalar : Bytes → Option Scalar
  pub now : Kind → Value
  pub run : ℕ → List Row → List Value → List Row × Option Code

-- `Int` and the payload of an int64
abbrev pub int_value : ℤ → Value
int_value i = record { k = int; scale = 0; n = word_of i; s = [] }

-- `intArith` and `floatArith` take one of these, and so does `compileArithmetic`.
pub data ArithOp : Type 0 where
  add sub mul div modulo exp : ArithOp

module _ (calls : Calls) where
  open calls use {floats, cast}

  -- `Float`
  abbrev pub float_value : floats.Float → Value
  float_value f = record { k = float; scale = 0; n = floats.to_bits f; s = [] }

  -- `intArith`
  unfoldable pub int_arith : ArithOp → ℤ → ℤ → Result Value
  int_arith add a b = ok (int_value (wrap (a +ℤ b)))
  int_arith sub a b = ok (int_value (wrap (a -ℤ b)))
  int_arith mul a b = ok (int_value (wrap (a *ℤ b)))
  int_arith div a b =
      if ℤ_eq b (pos 0) then err division_by_zero else ok (int_value (wrap (quo a b)))
  int_arith modulo a b =
      if ℤ_eq b (pos 0) then err division_by_zero else ok (int_value (wrap (rem a b)))
  int_arith exp a b = ok (float_value (floats.pow (floats.of_int a) (floats.of_int b)))

  -- `floatArith`
  unfoldable pub float_arith : ArithOp → floats.Float → floats.Float → Result Value
  float_arith add a b = ok (float_value (floats.add a b))
  float_arith sub a b = ok (float_value (floats.sub a b))
  float_arith mul a b = ok (float_value (floats.mul a b))
  float_arith div a b =
      if floats.same b (floats.of_int (pos 0))
      then err division_by_zero
      else ok (float_value (floats.div a b))
  float_arith modulo a b =
      if floats.same b (floats.of_int (pos 0))
      then err division_by_zero
      else ok (float_value (floats.modulo a b))
  float_arith exp a b = ok (float_value (floats.pow a b))

  -- `asNumeric`
  unfoldable pub as_numeric : Value → Result Value
  as_numeric v = if kind_eq v.k Value.numeric then ok v else cast v Value.numeric

  abbrev all_errors_division : Result Value → Outcome Value
  all_errors_division (ok v) = done v
  all_errors_division (err c) = failed division_by_zero

  -- The switch of `numericArith`, where `l` and `r` are the operands as they were given.
  unfoldable pub numeric_op : ArithOp → Value → Value → Value → Value → Outcome Value
  unfolding float_arith
  numeric_op add l r a b = or_panics (add_numeric a b)
  numeric_op sub l r a b = or_panics (sub_numeric a b)
  numeric_op mul l r a b = or_panics (mul_numeric a b)
  numeric_op div l r a b = or_panics (div_numeric a b) >> all_errors_division
  numeric_op modulo l r a b = or_panics (mod_numeric a b) >> all_errors_division
  numeric_op exp l r a b = of_result (float_arith exp (as_float floats l) (as_float floats r))

  -- `numericArith`
  unfoldable pub numeric_arith : ArithOp → Value → Value → Outcome Value
  unfolding as_numeric numeric_op
  numeric_arith op l r =
      of_result (as_numeric l) >> λ a. of_result (as_numeric r) >> λ b. numeric_op op l r a b

  -- `evalPair`, and what is done with both operands.
  abbrev pub eval_pair : Eval → Eval → (Value → Value → Outcome Value) → Eval
  eval_pair l r f cells args row = l cells args row >> λ lv. r cells args row >> λ rv. f lv rv

  -- The operators that give NULL where an operand is NULL.
  unfoldable pub null_or : (Value → Value → Outcome Value) → Value → Value → Outcome Value
  null_or f lv rv = if is_null lv || is_null rv then done null_value else f lv rv

  -- The switch of `compileArithmetic`, where neither operand is NULL.
  unfoldable pub arith_value : ArithOp → Kind → Value → Value → Outcome Value
  unfolding int_arith float_arith numeric_arith
  arith_value op kind lv rv =
      if kind_eq kind int && (kind_eq lv.k int && kind_eq rv.k int)
      then of_result (int_arith op (int_of lv.n) (int_of rv.n))
      else if kind_eq kind Value.numeric
      then numeric_arith op lv rv
      else of_result (float_arith op (as_float floats lv) (as_float floats rv))

  -- The closure of OpNot.
  unfoldable pub not_value : Value → Value
  not_value v = bool3_value (not3 (truth v))

  -- The closure of OpNeg.
  unfoldable pub neg_value : Value → Outcome Value
  neg_value v =
      if is_null v
      then done v
      else if kind_eq v.k int
      then done (int_value (wrap (neg_ℤ (int_of v.n))))
      else if kind_eq v.k Value.numeric
      then or_panics (neg_numeric v)
      else done (float_value (floats.negate (as_float floats v)))

  -- The closure of OpAnd.
  unfoldable pub eval_and : Eval → Eval → Eval
  eval_and l r cells args row = l cells args row >> λ lv.
      if Bool3.same (truth lv) Bool3.false
      then done (bool_value false)
      else r cells args row >> λ rv. done (bool3_value (and3 (truth lv) (truth rv)))

  -- The closure of OpOr.
  unfoldable pub eval_or : Eval → Eval → Eval
  eval_or l r cells args row = l cells args row >> λ lv.
      if Bool3.same (truth lv) Bool3.true
      then done (bool_value true)
      else r cells args row >> λ rv. done (bool3_value (or3 (truth lv) (truth rv)))

  -- The loop of `inResult`.
  unfoldable pub in_loop : Value → List Value → Bool → Bool → Value
  in_loop x [] negate saw_null = if saw_null then null_value else bool_value negate
  in_loop x (v ∷ vals) negate saw_null =
      let seen = in_loop x vals negate true in
      let same = in_loop x vals negate saw_null in
      elim (sql_eq floats x v) [
        | Bool3.true ↦ bool_value (not negate)
        | Bool3.unknown ↦ seen
        | Bool3.false ↦ same
      ]

  -- `inResult`
  unfoldable pub in_result : Value → List Value → Bool → Value
  unfolding in_loop
  in_result x vals negate = if is_null x then null_value else in_loop x vals negate false

  -- The closure of `compileCoalesce`.
  unfoldable pub eval_coalesce : List Eval → Eval
  eval_coalesce [] cells args row = done null_value
  eval_coalesce (a ∷ tail) cells args row =
      let rest = eval_coalesce tail cells args row in
      a cells args row >> λ v. if is_null v then rest else done v

  -- The closure of `compileCase`.
  unfoldable pub eval_case : List (Eval × Eval) → Option Eval → Eval
  eval_case [] none cells args row = done null_value
  eval_case [] (some els) cells args row = els cells args row
  eval_case ((cond, value) ∷ arms) els cells args row =
      let rest = eval_case arms els cells args row in
      cond cells args row >> λ v. if is_true (truth v) then value cells args row else rest

  -- The loop over the arguments of `compileFuncCall`: `none` where a strict function is not called.
  unfoldable pub call_args :
      Bool → List Eval → List Row → List Value → Row → Outcome (Option (List Value))
  call_args strict [] cells args row = done (some [])
  call_args strict (a ∷ tail) cells args row =
      let rest = call_args strict tail cells args row in
      a cells args row >> λ v.
      if strict && is_null v
      then done none
      else rest >> λ vals. elim vals [ none ↦ done none | some vs ↦ done (some (v ∷ vs)) ]

  -- The closure of `compileFuncCall`.
  unfoldable pub eval_call : Scalar → List Eval → Eval
  unfolding call_args
  eval_call f arg_evals cells args row = call_args f.strict arg_evals cells args row >> λ vals.
      elim vals [ none ↦ done null_value | some vs ↦ of_result (f.fn vs) ]

  -- The loop over the list of `compileInList`.
  unfoldable pub eval_all : List Eval → List Row → List Value → Row → Outcome (List Value)
  eval_all [] cells args row = done []
  eval_all (a ∷ tail) cells args row =
      let rest = eval_all tail cells args row in
      a cells args row >> λ v. rest >> λ vs. done (v ∷ vs)

  -- The closure of `compileInList`.
  unfoldable pub eval_in_list : Eval → List Eval → Bool → Eval
  unfolding eval_all in_result
  eval_in_list x list negate cells args row = x cells args row >> λ xv.
      eval_all list cells args row >> λ vals. done (in_result xv vals negate)
