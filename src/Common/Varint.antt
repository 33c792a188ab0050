-- ===== src/Common/Varint.antt =====
-- Package encoding/binary: unsigned varints and little-endian words over lists of bytes.
use native.Mathlib.Nat.{pow-succ', div-add-mod}
use Prim.Native.Nat.{ℕ, zero, suc, ◌+◌, ◌-◌, ◌*◌, ◌/◌, ◌%◌, ◌^◌, ◌<◌, ◌≤◌}
use mathlib.Core.Path.{◌≡◌, refl, ap, ◌∙◌}
use mathlib.Core.Bool.{◌&&◌}
use mathlib.Core.Logic.{inl, inr}
use mathlib.Core.List.{[], ◌∷◌, ◌++◌}
use mathlib.Core.Option.{Option, none, some}
use native.Mathlib.Omega.{arith}
use lightsql.Common.Tests.{ltb, ltb→lt, ◌==◌, if◌then◌else◌, Bool-cases}
use lightsql.Common.Lists.{Bytes}

-- The loop of `AppendUvarint`, of `f` rounds at most.
unfoldable pub uvarint_fuel : ℕ → ℕ → Bytes
uvarint_fuel zero n = []
uvarint_fuel (suc f) n =
    let rest = uvarint_fuel f (n / 128) in if ltb n 128 then n ∷ [] else (n % 128 + 128) ∷ rest

-- `AppendUvarint` of a uint64, which takes ten bytes at most.
unfoldable pub append_uvarint : ℕ → Bytes
unfolding uvarint_fuel
append_uvarint n = uvarint_fuel 10 n

pub append_uvarint_rounds : (n : ℕ) → append_uvarint n ≡ uvarint_fuel 10 n
unfolding append_uvarint uvarint_fuel
append_uvarint_rounds n = refl

-- The loop of `Uvarint`: `left` bytes may still come, `mult` is 2 ^ s, `acc` is x. The result is the
-- value and the rest of the bytes; `none` stands for a count that is not positive.
uvarint_from : ℕ → ℕ → ℕ → Bytes → Option (ℕ × Bytes)
uvarint_from left mult acc [] = none
uvarint_from zero mult acc (b ∷ bs) = none
uvarint_from (suc left) mult acc (b ∷ bs) =
    let more = uvarint_from left (mult * 128) (acc + (b - 128) * mult) bs in
    if ltb b 128 then (if left == 0 && ltb 1 b then none else some (acc + b * mult, bs)) else more

unfoldable pub uvarint : Bytes → Option (ℕ × Bytes)
unfolding uvarint_from
uvarint src = uvarint_from 10 1 0 src

pub uvarint_fuel-small : (f n : ℕ) → n < 128 → uvarint_fuel (suc f) n ≡ n ∷ []
unfolding uvarint_fuel
uvarint_fuel-small f n h = ground arith

pub uvarint_fuel-large :
    (f n : ℕ) → 128 ≤ n → uvarint_fuel (suc f) n ≡ (n % 128 + 128) ∷ uvarint_fuel f (n / 128)
unfolding uvarint_fuel
uvarint_fuel-large f n h = ground arith

uvarint_from-last :
    (f mult acc b : ℕ) (rest : Bytes)
    → b < 128
    → uvarint_from (suc (suc f)) mult acc (b ∷ rest) ≡ some (acc + b * mult, rest)
unfolding uvarint_from
uvarint_from-last f mult acc b rest h = ground arith

uvarint_from-more :
    (left mult acc b : ℕ) (rest : Bytes)
    → uvarint_from (suc left) mult acc ((b + 128) ∷ rest)
      ≡ uvarint_from left (mult * 128) (acc + b * mult) rest
unfolding uvarint_from
uvarint_from-more left mult acc b rest =
    let e : b + 128 - 128 ≡ b = omega arith in rw e (ground arith)

digits_join : (n mult acc : ℕ) → acc + n % 128 * mult + n / 128 * (mult * 128) ≡ acc + n * mult
digits_join n mult acc = let e = ap (λ (t : ℕ). t * mult) (div-add-mod n 128) in omega (arith, e)

-- A value below 2 * 128 ^ f takes at most f + 1 bytes, and is read back whatever was read before it.
uvarint_from-uvarint_fuel :
    (f mult acc n : ℕ) (rest : Bytes)
    → n < 2 * 128 ^ f
    → uvarint_from (suc f) mult acc (uvarint_fuel (suc f) n ++ rest) ≡ some (acc + n * mult, rest)
uvarint_from-uvarint_fuel zero mult acc n rest h =
    rw (uvarint_fuel-small zero n (omega arith)) (unfold uvarint_from in ground arith)
uvarint_from-uvarint_fuel (suc f) mult acc n rest h = elim (Bool-cases (ltb n 128)) [
  | inl small ↦
      let lt = ltb→lt n 128 small in
      rw (uvarint_fuel-small (suc f) n lt) (uvarint_from-last f mult acc n rest lt)
  | inr large ↦
      let le : 128 ≤ n = ground arith in
      rw (uvarint_fuel-large (suc f) n le) (
        uvarint_from-more (suc f) mult acc (n % 128) (uvarint_fuel (suc f) (n / 128) ++ rest)
        ∙ uvarint_from-uvarint_fuel f (mult * 128) (acc + n % 128 * mult) (n / 128) rest
            (omega (arith, pow-succ' 128 f))
        ∙ ap (λ (t : ℕ). some (t, rest)) (digits_join n mult acc))
]

-- A uint64 that was written is read back, and what follows it is left.
pub uvarint-append_uvarint :
    (n : ℕ) (rest : Bytes) → n < 2 ^ 64 → uvarint (append_uvarint n ++ rest) ≡ some (n, rest)
unfolding uvarint append_uvarint
uvarint-append_uvarint n rest h =
    uvarint_from-uvarint_fuel 9 1 0 n rest (omega arith)
    ∙ ap (λ (t : ℕ). some (t, rest)) (omega arith)

-- The `k` low bytes of a word, the lowest first.
unfoldable pub le_bytes : ℕ → ℕ → Bytes
le_bytes zero n = []
le_bytes (suc k) n = n % 256 ∷ le_bytes k (n / 256)

-- The word behind the first `k` bytes, and the rest; `none` if there are fewer.
unfoldable pub le_word : ℕ → Bytes → Option (ℕ × Bytes)
le_word zero src = some (0, src)
le_word (suc k) [] = none
le_word (suc k) (b ∷ bs) = elim (le_word k bs) [
  | none ↦ none
  | some (n, rest) ↦ some (b + 256 * n, rest)
]

pub le_word-le_bytes :
    (k n : ℕ) (rest : Bytes) → n < 256 ^ k → le_word k (le_bytes k n ++ rest) ≡ some (n, rest)
unfolding le_word le_bytes
le_word-le_bytes zero n rest h = ground arith
le_word-le_bytes (suc k) n rest h =
    ground (arith, le_word-le_bytes k (n / 256) rest, pow-succ' 256 k)
