-- ===== src/Types/Word.antt =====
-- Go's int64 and uint64: an int64 is an integer in range, and its payload word is its bit pattern.
use lightsql.Common.{ℕ, ◌-◌, ◌^◌, ◌<◌, ◌≡◌, Bool, arith, ltb, if◌then◌else◌}
use lightsql.Common.Int.{ℤ, pos, negsuc}

abbrev pub word_mod : ℕ
word_mod = 2 ^ 64

abbrev pub half_word : ℕ
half_word = 2 ^ 63

-- `uint64(i)` for an int64 i
abbrev pub word_of : ℤ → ℕ
word_of (pos n) = n
word_of (negsuc n) = word_mod - 1 - n

-- `int64(n)` for a uint64 n
abbrev pub int_of : ℕ → ℤ
int_of n = if ltb n half_word then pos n else negsuc (word_mod - 1 - n)

-- `IsInt64` of math/big, and the range of an int64
abbrev pub is_int64 : ℤ → Bool
is_int64 (pos n) = ltb n half_word
is_int64 (negsuc n) = ltb n half_word

pub int_of-word_of : (i : ℤ) → is_int64 i ≡ Bool.true → int_of (word_of i) ≡ i
int_of-word_of (pos n) h = ground arith
int_of-word_of (negsuc n) h = ground arith

pub word_of-int_of : (n : ℕ) → n < word_mod → word_of (int_of n) ≡ n
word_of-int_of n h = ground arith
