-- ===== src/Types/Decimal/Rounding.antt =====
-- Rounding is to the nearest, half away from zero; Int64 rounds where its comment says it truncates.
use native.Mathlib.Nat.{div-add-mod, mod-lt, pow-succ'}
use lightsql.Common.{
  ℕ, zero, suc, ◌+◌, ◌-◌, ◌*◌, ◌/◌, ◌%◌, ◌^◌, ◌≤◌, ◌<◌, ◌≡◌, false, arith, ltb, if◌then◌else◌, some,
  Bool-cases, inl, inr, tests,
}
use lightsql.Common.Int.{ℤ, pos, negsuc, ◌+ℤ◌, ◌-ℤ◌, neg_of, mag, quo, rem}
use lightsql.Types.Decimal.{Decimal, round, to_int64}

pos_ten : (n : ℕ) → 0 < 10 ^ n
pos_ten zero = omega arith
pos_ten (suc n) = rw (pow-succ' 10 n) (omega (arith, pos_ten n))

-- The magnitude of the rounded quotient.
abbrev nearest : ℕ → ℕ → ℕ
nearest n drop = if ltb (n % drop * 2) drop then n / drop else n / drop + 1

mag-round :
    (d : Decimal) (scale : ℕ)
    → scale < d.scale
    → 0 < 10 ^ (d.scale - scale)
    → mag (round d scale).unscaled ≡ nearest (mag d.unscaled) (10 ^ (d.scale - scale))
unfolding round quo rem ◌+ℤ◌ ◌-ℤ◌
mag-round d scale h p = by_sign d.unscaled
  where
    by_sign :
        (u : ℤ)
        → mag (round (record d { unscaled = u }) scale).unscaled
          ≡ nearest (mag u) (10 ^ (d.scale - scale))
    by_sign (pos n) = ground arith
    by_sign (negsuc n) = ground arith

-- The integer of magnitude `m` on the same side of zero as `u`.
abbrev pub with_sign : ℤ → ℕ → ℤ
with_sign (pos n) m = pos m
with_sign (negsuc n) m = neg_of m

sign-round :
    (d : Decimal) (scale : ℕ)
    → scale < d.scale
    → (round d scale).unscaled ≡ with_sign d.unscaled (mag (round d scale).unscaled)
unfolding round quo rem ◌+ℤ◌ ◌-ℤ◌
sign-round d scale h = by_sign d.unscaled
  where
    by_sign :
        (u : ℤ)
        → (round (record d { unscaled = u }) scale).unscaled
          ≡ with_sign u (mag (round (record d { unscaled = u }) scale).unscaled)
    by_sign (pos n) = ground arith
    by_sign (negsuc n) = ground arith

nearest_bounds :
    (n drop : ℕ)
    → 0 < drop
    → (nearest n drop * drop * 2 ≤ n * 2 + drop) × (n * 2 + drop < (nearest n drop + 1) * drop * 2)
nearest_bounds n drop h = elim (Bool-cases (ltb (n % drop * 2) drop)) [
  | inl below ↦
      rw below (omega (tests, div-add-mod n drop, below), omega (tests, div-add-mod n drop, below))
  | inr above ↦ rw above (
    omega (arith, div-add-mod n drop, not_below n drop above),
    omega (arith, div-add-mod n drop, mod-lt n h),
  )
]
  where
    not_below : (n drop : ℕ) → ltb (n % drop * 2) drop ≡ false → drop ≤ n % drop * 2
    not_below n drop e = ground arith

-- Rounding to fewer places gives the nearest multiple of the last place kept, away from zero where
-- two are equally near, on the same side of zero as the operand.
pub round_nearest :
    (d : Decimal) (scale : ℕ)
    → scale < d.scale
    → let drop = 10 ^ (d.scale - scale) in
      let q = (round d scale).unscaled in
      (mag q * drop * 2 ≤ mag d.unscaled * 2 + drop)
      × (mag d.unscaled * 2 + drop < (mag q + 1) * drop * 2)
      × (q ≡ with_sign d.unscaled (mag q))
      × ((round d scale).scale ≡ scale)
round_nearest d scale h =
    let p = pos_ten (d.scale - scale) in
    let m = mag-round d scale h p in
    let (lo, hi) = nearest_bounds (mag d.unscaled) (10 ^ (d.scale - scale)) p in
    (rw m lo, rw m hi, sign-round d scale h, unfold round in ground arith)

-- Int64 does not truncate a positive decimal: with a fraction of a half or more it gives the next integer,
-- if that is an int64.
pub to_int64_rounds :
    (n s : ℕ)
    → 10 ^ suc s ≤ n % 10 ^ suc s * 2
    → n / 10 ^ suc s + 1 < 2 ^ 63
    → to_int64 (record { unscaled = pos n; scale = suc s }) ≡ some (pos (n / 10 ^ suc s + 1))
unfolding to_int64 round quo rem ◌+ℤ◌
to_int64_rounds n s half fits = ground (arith, pos_ten (suc s))
