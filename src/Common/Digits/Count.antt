-- ===== src/Common/Digits/Count.antt =====
-- How many digits a number is printed with.
use Prim.Native.Nat.{ℕ, zero, suc, ◌+◌, ◌*◌, ◌/◌, ◌%◌, ◌^◌, ◌<◌, ◌≤◌}
use native.Mathlib.Nat.{pow-succ'}
use mathlib.Core.Path.{◌≡◌, refl, ap}
use mathlib.Core.List.{[], ◌∷◌, ◌++◌}
use mathlib.Core.Logic.{inl, inr}
use native.Mathlib.Omega.{arith}
use lightsql.Common.Tests.{ltb, Bool-cases}
use lightsql.Common.Lists.{Bytes, length, length-append}
use lightsql.Common.Digits.{digits_fuel, show_ℕ}

ten_times : (k : ℕ) → 10 ^ suc k ≡ 10 * 10 ^ k
ten_times k = pow-succ' 10 k

ten_positive : (k : ℕ) → 0 < 10 ^ k
ten_positive zero = omega arith
ten_positive (suc k) = omega (arith, ten_times k, ten_positive k)

fuel_at_most : (f n k : ℕ) → n < suc f → n < 10 ^ suc k → length (digits_fuel (suc f) n) ≤ suc k
unfolding digits_fuel
fuel_at_most zero n k h lt = ground arith
fuel_at_most (suc f) n zero h lt = ground arith
fuel_at_most (suc f) n (suc k) h lt = elim (Bool-cases (ltb n 10)) [
  | inl small ↦ rw small (omega arith)
  | inr large ↦
      rw (large, length-append)
        (omega (arith, fuel_at_most f (n / 10) k (ground arith) (omega (arith, ten_times (suc k)))))
]

fuel_more : (f n k : ℕ) → n < suc f → 10 ^ k ≤ n → k < length (digits_fuel (suc f) n)
unfolding digits_fuel
fuel_more zero n zero h le = ground arith
fuel_more zero n (suc k) h le = ground (arith, ten_times k, ten_positive k)
fuel_more (suc f) n zero h le = elim (Bool-cases (ltb n 10)) [
  | inl small ↦ rw small (omega arith)
  | inr large ↦ rw (large, length-append) (omega arith)
]
fuel_more (suc f) n (suc k) h le = elim (Bool-cases (ltb n 10)) [
  | inl small ↦ ground (arith, ten_times k, ten_positive k)
  | inr large ↦
      rw (large, length-append)
        (omega (arith, fuel_more f (n / 10) k (ground arith) (omega (arith, ten_times k))))
]

-- A number has at most as many digits as the power of ten that it is below, and more than that of one that it
-- reaches.
pub length-show_ℕ_le : (n k : ℕ) → n < 10 ^ suc k → length (show_ℕ n) ≤ suc k
unfolding show_ℕ
length-show_ℕ_le n k h = fuel_at_most n n k (omega arith) h

pub length-show_ℕ_lt : (n k : ℕ) → 10 ^ k ≤ n → k < length (show_ℕ n)
unfolding show_ℕ
length-show_ℕ_lt n k h = fuel_more n n k (omega arith) h

fuel_first :
    (f n : ℕ)
    → n < suc f
    → 0 < n
    → (c : ℕ) × (rest : Bytes) × (digits_fuel (suc f) n ≡ c ∷ rest) × (48 < c)
unfolding digits_fuel
fuel_first zero n h k = absurd (omega arith)
fuel_first (suc f) n h k = elim (Bool-cases (ltb n 10)) [
  | inl small ↦ (48 + n, [], rw small refl, omega arith)
  | inr large ↦
      let (c, rest, e, big) = fuel_first f (n / 10) (ground arith) (ground arith) in
      (c, rest ++ (48 + n % 10) ∷ [], rw large (ap (λ (t : Bytes). t ++ (48 + n % 10) ∷ []) e), big)
]

-- A positive number is not printed with a leading zero.
pub show_ℕ-first : (n : ℕ) → 0 < n → (c : ℕ) × (rest : Bytes) × (show_ℕ n ≡ c ∷ rest) × (48 < c)
unfolding show_ℕ
show_ℕ-first n h = fuel_first n n (omega arith) h
