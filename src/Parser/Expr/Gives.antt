-- ===== src/Parser/Expr/Gives.antt =====
-- What the results of a parser satisfy, and what follows an expression (internal/parser/expr.go).
use lightsql.Common.{ℕ, ◌+◌, ◌≤◌, ◌≡◌, refl, Bool, true, false, if◌then◌else◌, arith}
use lightsql.Token.{
  Kind, kw_not, kw_in, kw_between, kw_like, kw_or, kw_and, eq, not_eq, less, less_eq, greater,
  greater_eq, plus, minus, star, slash, percent, caret, concat, arrow, long_arrow, contains,
}
use lightsql.Ast.{Expr}
use lightsql.Parser.{Stream, Parsed, Parser, parsed, failed, starved, ◌>>=◌}
use lightsql.Parser.Infix.{
  bp_cast, bp_is, bp_range, Infix, cast_mark, is_mark, range_mark, operator, no_infix,
  negated_range, infix_form, infix_at, looser,
}
use lightsql.Parser.Expr.Shape.{op_bp, Shaped, Left, Right}

-- Where the parser succeeds, its value and the rest of the tokens satisfy `P`.
abbrev pub Gives : {A : Type 0} → (A → Stream → Type 0) → Parsed A → Type 0
Gives P (parsed a ts) = P a ts
Gives P _ = Unit

pub bind-Gives :
    {A B : Type 0} (P : A → Stream → Type 0) (R : B → Stream → Type 0) (r : Parsed A)
    (f : A → Parser B)
    → Gives P r
    → ((a : A) (ts : Stream) → P a ts → Gives R (f a ts))
    → Gives R (r >>= f)
bind-Gives P R (parsed a ts) f h k = k a ts h
bind-Gives P R (failed c) f h k = tt
bind-Gives P R starved f h k = tt

pub if-Gives :
    {A : Type 0} (P : A → Stream → Type 0) (b : Bool) (x y : Parsed A)
    → Gives P x
    → Gives P y
    → Gives P (if b then x else y)
if-Gives P true x y h k = h
if-Gives P false x y h k = k

pub any-Gives : {A : Type 0} (r : Parsed A) → Gives (λ a ts. Unit {0}) r
any-Gives (parsed a ts) = tt
any-Gives (failed c) = tt
any-Gives starved = tt

-- A step of which nothing is known.
pub then_any :
    {A B : Type 0} (R : B → Stream → Type 0) (r : Parsed A) (f : A → Parser B)
    → ((a : A) (ts : Stream) → Gives R (f a ts))
    → Gives R (r >>= f)
then_any R r f k = bind-Gives (λ a ts. Unit {0}) R r f (any-Gives r) λ a ts _. k a ts

-- How tightly an infix form binds.
abbrev pub power : Infix → ℕ
power cast_mark = bp_cast
power is_mark = bp_is
power (range_mark negate) = bp_range
power (operator op bp) = bp
power no_infix = 0

pub looser-power : (bp : ℕ) (m : Infix) → looser (bp + 1) m ≡ true → power m ≤ bp
unfolding looser
looser-power bp cast_mark e = ground arith
looser-power bp is_mark e = ground arith
looser-power bp (range_mark negate) e = ground arith
looser-power bp (operator op b) e = ground arith
looser-power bp no_infix e = omega arith

pub looser-power_le : (bp : ℕ) (m : Infix) → looser bp m ≡ true → power m ≤ bp
unfolding looser
looser-power_le bp cast_mark e = ground arith
looser-power_le bp is_mark e = ground arith
looser-power_le bp (range_mark negate) e = ground arith
looser-power_le bp (operator op b) e = ground arith
looser-power_le bp no_infix e = omega arith

pub tighter-power : (min : ℕ) (m : Infix) → looser min m ≡ false → min ≤ power m
unfolding looser
tighter-power min cast_mark e = ground arith
tighter-power min is_mark e = ground arith
tighter-power min (range_mark negate) e = ground arith
tighter-power min (operator op b) e = ground arith
tighter-power min no_infix e = ground arith

-- An operator has its own binding power.
abbrev pub Listed : Infix → Type 0
Listed (operator op bp) = op_bp op ≡ bp
Listed _ = Unit

negated_range-Listed : (k : Kind) → Listed (negated_range k)
negated_range-Listed kw_in = tt
negated_range-Listed kw_between = tt
negated_range-Listed kw_like = tt
negated_range-Listed _ = tt

pub infix_form-Listed : (k l : Kind) → Listed (infix_form k l)
unfolding infix_form
infix_form-Listed kw_not l = negated_range-Listed l
infix_form-Listed kw_or l = refl
infix_form-Listed kw_and l = refl
infix_form-Listed eq l = refl
infix_form-Listed not_eq l = refl
infix_form-Listed less l = refl
infix_form-Listed less_eq l = refl
infix_form-Listed greater l = refl
infix_form-Listed greater_eq l = refl
infix_form-Listed plus l = refl
infix_form-Listed minus l = refl
infix_form-Listed star l = refl
infix_form-Listed slash l = refl
infix_form-Listed percent l = refl
infix_form-Listed caret l = refl
infix_form-Listed concat l = refl
infix_form-Listed arrow l = refl
infix_form-Listed long_arrow l = refl
infix_form-Listed contains l = refl
infix_form-Listed _ l = tt

-- The operators of an expression bind no looser than `min` on the left, and than what follows on the right.
abbrev pub Operand : {Q : Type 0} → ℕ → Expr Q → Stream → Type 0
Operand min e ts = Shaped e × Left min e × Right (power (infix_at ts)) e

-- And the next infix form is left to the caller.
abbrev pub Finished : {Q : Type 0} → ℕ → Expr Q → Stream → Type 0
Finished min e ts = (looser min (infix_at ts) ≡ true) × Operand min e ts
