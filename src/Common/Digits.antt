-- ===== src/Common/Digits.antt =====
-- Decimal text of integers: what strconv.FormatInt and big.Int's String print, and what SetString
-- in base ten reads.
pub mod Count
use Prim.Native.Nat.{ℕ, zero, suc, ◌+◌, ◌-◌, ◌*◌, ◌/◌, ◌%◌, ◌<◌, ◌≤◌}
use mathlib.Core.Path.{◌≡◌, refl, ap, sym, ◌∙◌}
use mathlib.Core.Bool.{Bool, true, ◌&&◌}
use mathlib.Core.List.{[], ◌∷◌, ◌++◌}
use mathlib.Core.Logic.{inl, inr}
use mathlib.Core.Option.{Option, none, some}
use native.Mathlib.Omega.{arith}
use lightsql.Common.Tests.{ltb, leb, ◌==◌, if◌then◌else◌, Bool-cases}
use lightsql.Common.Lists.{Bytes, All, All-append}
use lightsql.Common.Int.{ℤ, pos, negsuc, neg_of}

unfoldable digits_fuel : ℕ → ℕ → Bytes
digits_fuel zero n = []
digits_fuel (suc f) n =
    let rest = digits_fuel f (n / 10) in
    if ltb n 10 then (48 + n) ∷ [] else rest ++ (48 + n % 10) ∷ []

unfoldable pub show_ℕ : ℕ → Bytes
unfolding digits_fuel
show_ℕ n = digits_fuel (suc n) n

unfoldable pub show_ℤ : ℤ → Bytes
unfolding show_ℕ
show_ℤ (pos n) = show_ℕ n
show_ℤ (negsuc n) = b'-' ∷ show_ℕ (suc n)

abbrev pub is_digit : ℕ → Bool
is_digit c = leb 48 c && leb c 57

unfoldable pub read_from : ℕ → Bytes → Option ℕ
read_from acc [] = some acc
read_from acc (c ∷ cs) =
    let rest = read_from (acc * 10 + (c - 48)) cs in if is_digit c then rest else none

unfoldable pub read_ℕ : Bytes → Option ℕ
unfolding read_from
read_ℕ [] = none
read_ℕ (c ∷ cs) = read_from 0 (c ∷ cs)

unfoldable pub read_ℤ : Bytes → Option ℤ
unfolding read_ℕ
read_ℤ [] = none
read_ℤ (c ∷ cs) =
    if c == b'-'
    then elim (read_ℕ cs) [ none ↦ none | some n ↦ some (neg_of n) ]
    else if c == b'+'
    then elim (read_ℕ cs) [ none ↦ none | some n ↦ some (pos n) ]
    else elim (read_ℕ (c ∷ cs)) [ none ↦ none | some n ↦ some (pos n) ]

read_from-append_one :
    (acc c v : ℕ) (xs : Bytes)
    → read_from acc xs ≡ some v
    → is_digit c ≡ true
    → read_from acc (xs ++ c ∷ []) ≡ some (v * 10 + (c - 48))
unfolding read_from
read_from-append_one acc c v [] h d = ground arith
read_from-append_one acc c v (x ∷ xs) h d =
    ground (arith, read_from-append_one (acc * 10 + (x - 48)) c v xs)

read_from-digits : (f n : ℕ) → n < f → read_from 0 (digits_fuel f n) ≡ some n
unfolding digits_fuel
read_from-digits zero n h = elim h [ ]
read_from-digits (suc f) n h = elim (Bool-cases (ltb n 10)) [
  | inl small ↦ rw small (unfold read_from in ground arith)
  | inr large ↦ rw large (
      ground (
        arith,
        read_from-append_one 0 (48 + n % 10) (n / 10) (digits_fuel f (n / 10)),
        read_from-digits f (n / 10),
      ))
]

-- What is printed is made of digits, and is not empty.
digits_fuel-digits : (f n : ℕ) → All (λ c. (48 ≤ c) × (c ≤ 57)) (digits_fuel f n)
unfolding digits_fuel
digits_fuel-digits zero n = tt
digits_fuel-digits (suc f) n = elim (Bool-cases (ltb n 10)) [
  | inl small ↦ rw small ((omega arith, ground arith), tt)
  | inr large ↦ rw large (
      All-append _ (digits_fuel f (n / 10)) _ (digits_fuel-digits f (n / 10))
        ((omega arith, omega arith), tt))
]

pub show_ℕ-digits : (n : ℕ) → All (λ c. (48 ≤ c) × (c ≤ 57)) (show_ℕ n)
unfolding show_ℕ
show_ℕ-digits n = digits_fuel-digits (suc n) n

IsDigits : Bytes → Type 0
IsDigits s = (c : ℕ) × (rest : Bytes) × (s ≡ c ∷ rest) × (48 ≤ c) × (c ≤ 57)

digits_fuel-cons : (f n : ℕ) → n < suc f → IsDigits (digits_fuel (suc f) n)
unfolding digits_fuel IsDigits
digits_fuel-cons zero n h = (48 + n, [], ground arith, omega arith, omega arith)
digits_fuel-cons (suc f) n h = elim (Bool-cases (ltb n 10)) [
  | inl small ↦ (48 + n, [], rw small, omega arith, ground arith)
  | inr large ↦
      let (c, rest, e, lo, hi) = digits_fuel-cons f (n / 10) (ground arith) in
      (
        c,
        rest ++ (48 + n % 10) ∷ [],
        rw large (ap (λ (t : Bytes). t ++ (48 + n % 10) ∷ []) e),
        lo,
        hi,
      )
]

pub show_ℕ-cons : (n : ℕ) → (c : ℕ) × (rest : Bytes) × (show_ℕ n ≡ c ∷ rest) × (48 ≤ c) × (c ≤ 57)
unfolding show_ℕ IsDigits
show_ℕ-cons n = digits_fuel-cons n n (omega arith)

read_ℕ-cons : (c : ℕ) (rest : Bytes) → read_ℕ (c ∷ rest) ≡ read_from 0 (c ∷ rest)
unfolding read_ℕ
read_ℕ-cons c rest = refl

read_from-show_ℕ : (n : ℕ) → read_from 0 (show_ℕ n) ≡ some n
unfolding show_ℕ
read_from-show_ℕ n = read_from-digits (suc n) n (omega arith)

pub read_ℕ-show_ℕ : (n : ℕ) → read_ℕ (show_ℕ n) ≡ some n
read_ℕ-show_ℕ n =
    let (c, rest, e, lo, hi) = show_ℕ-cons n in
    ap read_ℕ e ∙ read_ℕ-cons c rest ∙ ap (read_from 0) (sym e) ∙ read_from-show_ℕ n

-- Reading what was printed gives the integer back.
pub read_ℤ-show_ℤ : (z : ℤ) → read_ℤ (show_ℤ z) ≡ some z
unfolding read_ℤ show_ℤ
read_ℤ-show_ℤ (pos n) =
    let (c, rest, e, lo, hi) = show_ℕ-cons n in rw e (ground (arith, e, read_ℕ-show_ℕ n))
read_ℤ-show_ℤ (negsuc n) = ground (arith, read_ℕ-show_ℕ (suc n))
