-- ===== src/Common/Int.antt =====
-- Signed integers over the native numbers, under the library's names. Sums and orders go through
-- the two parts of an integer, which are numbers that `omega` reads.
use Prim.Native.Nat.{ℕ, zero, suc, ◌+◌, ◌-◌, ◌*◌, ◌/◌, ◌%◌, ◌≤◌}
use mathlib.Core.Path.{◌≡◌, ap, ◌∙◌}
use native.Mathlib.Nat.{mul_assoc, zero-mul}
use mathlib.Core.Bool.{Bool, false}
use native.Mathlib.Omega.{arith}
use lightsql.Common.Tests.{ltb, leb, if◌then◌else◌, ◌==◌}

-- `negsuc n` is -(n + 1).
pub data ℤ : Type 0 where
  pos : ℕ → ℤ
  negsuc : ℕ → ℤ

abbrev pub pos_part : ℤ → ℕ
pos_part (pos n) = n
pos_part (negsuc n) = 0

abbrev pub neg_part : ℤ → ℕ
neg_part (pos n) = 0
neg_part (negsuc n) = suc n

-- a - b, as an integer.
abbrev pub sub_ℕ : ℕ → ℕ → ℤ
sub_ℕ a b = if leb b a then pos (a - b) else negsuc (b - a - 1)

infixl 65 ◌+ℤ◌ ◌-ℤ◌
infixl 70 ◌*ℤ◌
infix 50 ◌≤ℤ◌
unfoldable pub ◌+ℤ◌ : ℤ → ℤ → ℤ
a +ℤ b = sub_ℕ (pos_part a + pos_part b) (neg_part a + neg_part b)

unfoldable pub ◌-ℤ◌ : ℤ → ℤ → ℤ
a -ℤ b = sub_ℕ (pos_part a + neg_part b) (neg_part a + pos_part b)

-- -n
abbrev pub neg_of : ℕ → ℤ
neg_of n = if n == 0 then pos 0 else negsuc (n - 1)

unfoldable pub ◌*ℤ◌ : ℤ → ℤ → ℤ
pos a *ℤ pos b = pos (a * b)
pos a *ℤ negsuc b = neg_of (a * suc b)
negsuc a *ℤ pos b = neg_of (suc a * b)
negsuc a *ℤ negsuc b = pos (suc a * suc b)

abbrev pub mag : ℤ → ℕ
mag (pos n) = n
mag (negsuc n) = suc n

abbrev pub neg_ℤ : ℤ → ℤ
neg_ℤ (pos n) = neg_of n
neg_ℤ (negsuc n) = pos (suc n)

-- Division that truncates towards zero, for a divisor that is not zero: `Quo` of math/big, and `/`
-- of Go's integers.
unfoldable pub quo : ℤ → ℤ → ℤ
quo (pos a) (pos b) = pos (a / b)
quo (pos a) (negsuc b) = neg_of (a / suc b)
quo (negsuc a) (pos b) = neg_of (suc a / b)
quo (negsuc a) (negsuc b) = pos (suc a / suc b)

-- The remainder of `quo`, which has the sign of the dividend: `Rem`, and `%`.
unfoldable pub rem : ℤ → ℤ → ℤ
rem (pos a) b = pos (a % mag b)
rem (negsuc a) b = neg_of (suc a % mag b)

abbrev pub ℤ_eq : ℤ → ℤ → Bool
ℤ_eq (pos a) (pos b) = a == b
ℤ_eq (negsuc a) (negsuc b) = a == b
ℤ_eq _ _ = false

abbrev pub ◌≤ℤ◌ : ℤ → ℤ → Type 0
a ≤ℤ b = pos_part a + neg_part b ≤ pos_part b + neg_part a

abbrev pub ltb_ℤ : ℤ → ℤ → Bool
ltb_ℤ a b = ltb (pos_part a + neg_part b) (pos_part b + neg_part a)

-- One lemma for each operation lets `omega` work with the operations shut, at any depth.
pub +ℤ_parts :
    (a b : ℤ)
    → pos_part (a +ℤ b) + neg_part a + neg_part b ≡ neg_part (a +ℤ b) + pos_part a + pos_part b
unfolding ◌+ℤ◌
+ℤ_parts a b = ground arith

pub -ℤ_parts :
    (a b : ℤ)
    → pos_part (a -ℤ b) + neg_part a + pos_part b ≡ neg_part (a -ℤ b) + pos_part a + neg_part b
unfolding ◌-ℤ◌
-ℤ_parts a b = ground arith

pub eq_of_parts : (a b : ℤ) → pos_part a + neg_part b ≡ pos_part b + neg_part a → a ≡ b
eq_of_parts a b h = ground arith

pub ruleset int_laws = (arith, +ℤ_parts, -ℤ_parts, eq_of_parts)

pub +ℤ_mono : (a b c d : ℤ) → a ≤ℤ b → c ≤ℤ d → a +ℤ c ≤ℤ b +ℤ d
+ℤ_mono a b c d h k = omega int_laws

neg_of-mul : (m b : ℕ) → neg_of m *ℤ pos b ≡ neg_of (m * b)
unfolding ◌*ℤ◌
neg_of-mul zero b = ground (arith, zero-mul b)
neg_of-mul (suc m) b = ground arith

pub *ℤ-pos_assoc : (x : ℤ) (a b : ℕ) → x *ℤ pos a *ℤ pos b ≡ x *ℤ pos (a * b)
unfolding ◌*ℤ◌
*ℤ-pos_assoc (pos n) a b = ap pos (mul_assoc n a b)
*ℤ-pos_assoc (negsuc n) a b = neg_of-mul (suc n * a) b ∙ ap neg_of (mul_assoc (suc n) a b)

pub *ℤ-one : (x : ℤ) → x *ℤ pos 1 ≡ x
unfolding ◌*ℤ◌
*ℤ-one (pos n) = ground arith
*ℤ-one (negsuc n) = ground arith
