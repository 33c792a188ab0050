-- ===== src/Types/Overflow.antt =====
-- internal/types/decimal_value.go: int64 arithmetic that reports an overflow instead of wrapping.
-- `none` is the pair (0, false).
use native.Mathlib.Nat.{div-mul-le_self, mul-div_left, pow-succ', zero-mul, mul-zero}
use lightsql.Common.{
  ap, sym, ◌∙◌, Option-cases, Bool-cases, inl, inr, ℕ, zero, suc, ◌-◌, ◌*◌, ◌/◌, ◌%◌, ◌^◌, ◌<◌, ◌≡◌,
  ◌≢◌, refl, Bool, true, false, ◌&&◌, ◌||◌, not, Option, none, some, arith, ltb, if◌then◌else◌,
}
use lightsql.Common.Int.{ℤ, pos, negsuc, ◌+ℤ◌, ◌*ℤ◌, quo, ℤ_eq, *ℤ-pos_assoc, *ℤ-one}
use lightsql.Types.Word.{word_mod, half_word, int_of, is_int64}

-- The int64 that Go's arithmetic gives where the true result is z.
unfoldable pub wrap : ℤ → ℤ
wrap (pos n) = int_of (n % word_mod)
wrap (negsuc n) = int_of (word_mod - 1 - n % word_mod)

abbrev pub min_int64 : ℤ
min_int64 = negsuc (half_word - 1)

abbrev positive : ℤ → Bool
positive (pos n) = ltb 0 n
positive (negsuc n) = false

abbrev negative : ℤ → Bool
negative (pos n) = false
negative (negsuc n) = true

unfoldable pub add_no_overflow : ℤ → ℤ → Option ℤ
unfolding wrap
add_no_overflow x y =
    let sum = wrap (x +ℤ y) in
    if (positive x && positive y && negative sum)
      || (negative x && negative y && not (negative sum))
    then none
    else some sum

unfoldable pub mul_no_overflow : ℤ → ℤ → Option ℤ
unfolding wrap
mul_no_overflow x y =
    if ℤ_eq x (pos 0) || ℤ_eq y (pos 0)
    then some (pos 0)
    else if ℤ_eq x min_int64 || ℤ_eq y min_int64
    then none
    else let prod = wrap (x *ℤ y) in if not (ℤ_eq (wrap (quo prod y)) x) then none else some prod

-- The loop `for range by` of scaleNoOverflow.
unfoldable pub scale_no_overflow : ℤ → ℕ → Option ℤ
scale_no_overflow x zero = some x
scale_no_overflow x (suc by) = elim (mul_no_overflow x (pos 10)) [
  | none ↦ none
  | some x' ↦ scale_no_overflow x' by
]

-- The sum is reported exactly when it fits an int64, and then it is the true sum.
pub add_no_overflow_lem :
    (x y : ℤ)
    → is_int64 x ≡ true
    → is_int64 y ≡ true
    → add_no_overflow x y ≡ (if is_int64 (x +ℤ y) then some (x +ℤ y) else none)
unfolding add_no_overflow ◌+ℤ◌
add_no_overflow_lem (pos a) (pos b) hx hy = ground arith
add_no_overflow_lem (pos a) (negsuc b) hx hy = ground arith
add_no_overflow_lem (negsuc a) (pos b) hx hy = ground arith
add_no_overflow_lem (negsuc a) (negsuc b) hx hy = ground arith

-- Dividing the wrapped product back gives the factor exactly when nothing was lost.
back_pos :
    (a b : ℕ) → 0 < b → a * b % word_mod < half_word → a * b % word_mod / b ≡ a → a * b < half_word
back_pos a b hb hr e =
    let r = a * b % word_mod in omega (arith, div-mul-le_self r b, ap (λ (t : ℕ). t * b) e)

div_back : (a b : ℕ) → 0 < b → a * b / b ≡ a
div_back a b hb = mul-div_left a hb

back_neg :
    (a b : ℕ)
    → 0 < b
    → 0 < a * b
    → (a * b - 1) % word_mod < half_word
    → suc ((a * b - 1) % word_mod) / b ≡ a
    → a * b - 1 < half_word
back_neg a b hb hp hr e =
    let r = suc ((a * b - 1) % word_mod) in
    omega (arith, div-mul-le_self r b, ap (λ (t : ℕ). t * b) e)

-- Where neither factor is the least int64, the product is reported exactly when it fits an int64, and
-- then it is the true product.
pub mul_no_overflow_lem :
    (x y : ℤ)
    → is_int64 x ≡ true
    → is_int64 y ≡ true
    → x ≢ min_int64
    → y ≢ min_int64
    → mul_no_overflow x y ≡ (if is_int64 (x *ℤ y) then some (x *ℤ y) else none)
unfolding mul_no_overflow ◌*ℤ◌ quo
mul_no_overflow_lem (pos zero) (pos b) hx hy nx ny = ground arith
mul_no_overflow_lem (pos zero) (negsuc b) hx hy nx ny = ground arith
mul_no_overflow_lem (pos (suc a)) (pos zero) hx hy nx ny = ground arith
mul_no_overflow_lem (pos (suc a)) (pos (suc b)) hx hy nx ny =
    ground (arith, back_pos (suc a) (suc b), div_back (suc a) (suc b))
mul_no_overflow_lem (pos (suc a)) (negsuc b) hx hy nx ny =
    ground (arith, back_neg (suc a) (suc b), div_back (suc a) (suc b))
mul_no_overflow_lem (negsuc a) (pos zero) hx hy nx ny = ground arith
mul_no_overflow_lem (negsuc a) (pos (suc b)) hx hy nx ny =
    ground (arith, back_neg (suc a) (suc b), div_back (suc a) (suc b))
mul_no_overflow_lem (negsuc a) (negsuc b) hx hy nx ny =
    ground (arith, back_pos (suc a) (suc b), div_back (suc a) (suc b))

zero_factor :
    (x y p : ℤ)
    → ℤ_eq x (pos 0) || ℤ_eq y (pos 0) ≡ true
    → mul_no_overflow x y ≡ some p
    → (p ≡ x *ℤ y) × (is_int64 p ≡ true)
unfolding mul_no_overflow ◌*ℤ◌
zero_factor (pos a) (pos b) p z h = ground (arith, zero-mul b, mul-zero a)
zero_factor (pos a) (negsuc b) p z h = ground (arith, zero-mul (suc b))
zero_factor (negsuc a) (pos b) p z h = ground (arith, mul-zero (suc a))
zero_factor (negsuc a) (negsuc b) p z h = cc

least_factor :
    (x y p : ℤ)
    → ℤ_eq x (pos 0) || ℤ_eq y (pos 0) ≡ false
    → ℤ_eq x min_int64 || ℤ_eq y min_int64 ≡ true
    → mul_no_overflow x y ≢ some p
unfolding mul_no_overflow
least_factor x y p z l h = let bad : none ≡ some p = rw (z, l) at h in cc

no_least : (x : ℤ) → ℤ_eq x min_int64 ≡ false → x ≢ min_int64
no_least (pos n) h e = cc
no_least (negsuc n) h e = ground arith

-- Where a product is reported it is the true one and fits.
pub mul_no_overflow_exact :
    (x y p : ℤ)
    → is_int64 x ≡ true
    → is_int64 y ≡ true
    → mul_no_overflow x y ≡ some p
    → (p ≡ x *ℤ y) × (is_int64 p ≡ true)
mul_no_overflow_exact x y p hx hy h = elim (Bool-cases (ℤ_eq x (pos 0) || ℤ_eq y (pos 0))) [
  | inl z ↦ zero_factor x y p z h
  | inr z ↦ elim (Bool-cases (ℤ_eq x min_int64 || ℤ_eq y min_int64)) [
    | inl l ↦ absurd (least_factor x y p z l h)
    | inr l ↦
        let e =
          mul_no_overflow_lem x y hx hy (no_least x (ground arith)) (no_least y (ground arith)) in
        ground (arith, e)
  ]
]

-- Widening a scale is exact where it is reported at all, and stays in range.
pub scale_no_overflow_lem :
    (x : ℤ) (by : ℕ) (z : ℤ)
    → is_int64 x ≡ true
    → scale_no_overflow x by ≡ some z
    → (z ≡ x *ℤ pos (10 ^ by)) × (is_int64 z ≡ true)
unfolding scale_no_overflow
scale_no_overflow_lem x zero z hx h = (ground (arith, *ℤ-one x), ground arith)
scale_no_overflow_lem x (suc by) z hx h = elim (Option-cases (mul_no_overflow x (pos 10))) [
  | inl over ↦ let bad : none ≡ some z = rw (over, scale_no_overflow) at h in cc
  | inr (x', at) ↦
      let (e, hx') = mul_no_overflow_exact x (pos 10) x' hx refl at in
      let (ez, hz) = scale_no_overflow_lem x' by z hx' (rw (at, scale_no_overflow) at h) in
      (
        ez
            ∙ ap (λ t. t *ℤ pos (10 ^ by)) e
            ∙ *ℤ-pos_assoc x 10 (10 ^ by)
            ∙ ap (λ n. x *ℤ pos n) (sym (pow-succ' 10 by)),
        hz,
      )
]
