-- ===== src/Catalog/Row/Numeric.antt =====
-- The precision and the scale of a numeric column (internal/catalog/catalog.go: fitNumeric, digitsBefore).
use native.Mathlib.Nat.{sub-zero}
use lightsql.Common.{
  ℕ, zero, suc, ◌+◌, ◌-◌, ◌^◌, ◌≤◌, ◌<◌, ◌≡◌, refl, sym, ap, ◌∙◌, inl, inr, Bool, true, false, [],
  ◌∷◌, ◌++◌, ◌==◌, leb, if◌then◌else◌, Bytes, bytes, bytes_eq, length, take, drop, All, arith,
  Bool-cases,
}
use lightsql.Common.Int.{ℤ, pos, negsuc, mag}
use lightsql.Common.Digits.{show_ℕ, show_ℤ, show_ℕ-digits, show_ℕ-cons}
use lightsql.Common.Digits.Count.{length-show_ℕ_le, length-show_ℕ_lt, show_ℕ-first}
use lightsql.Types.Decimal.{Decimal}
use lightsql.Types.Decimal.Order.{pos_ten}
use lightsql.Types.Decimal.Text.{zeros, trim_minus, has_minus, with_point, place_point, to_string}
use lightsql.Types.Numeric.{cut}
use lightsql.Catalog.Row.{digits_before}

-- The part before the point.
abbrev pub whole_part : Bytes → ℕ → Bytes
whole_part digits scale =
    if leb (length digits) scale then bytes "0" else take (length digits - scale) digits

cut_digits :
    (xs ys : Bytes) → All (λ c. (48 ≤ c) × (c ≤ 57)) xs → (cut (xs ++ b'.' ∷ ys) b'.').0 ≡ xs
unfolding cut
cut_digits [] ys h = refl
cut_digits (x ∷ xs) ys h = ground (arith, cut_digits xs ys h.1, h.0)

cut_whole : (xs : Bytes) → All (λ c. (48 ≤ c) × (c ≤ 57)) xs → (cut xs b'.').0 ≡ xs
unfolding cut
cut_whole [] h = refl
cut_whole (x ∷ xs) h = ground (arith, cut_whole xs h.1, h.0)

take-All : (P : ℕ → Type 0) (n : ℕ) (xs : Bytes) → All P xs → All P (take n xs)
take-All P zero xs h = tt
take-All P (suc n) [] h = tt
take-All P (suc n) (x ∷ xs) h = (h.0, take-All P n xs h.1)

take-length : (xs : Bytes) → take (length xs) xs ≡ xs
take-length [] = refl
take-length (x ∷ xs) = ap (λ (t : Bytes). x ∷ t) (take-length xs)

length-take : (n : ℕ) (xs : Bytes) → n ≤ length xs → length (take n xs) ≡ n
length-take zero xs h = refl
length-take (suc n) [] h = absurd (omega arith)
length-take (suc n) (x ∷ xs) h = ap suc (length-take n xs (omega arith))

cut-with_point :
    (digits : Bytes) (s : ℕ)
    → All (λ c. (48 ≤ c) × (c ≤ 57)) digits
    → 0 < length digits
    → (cut (with_point digits s) b'.').0 ≡ whole_part digits s
unfolding with_point
cut-with_point digits zero h k = elim (Bool-cases (leb (length digits) 0)) [
  | inl e ↦ absurd (ground arith)
  | inr e ↦ rw (e, sub-zero) (cut_whole digits h ∙ sym (take-length digits))
]
cut-with_point digits (suc s) h k = elim (Bool-cases (leb (length digits) (suc s))) [
  | inl e ↦ rw e (unfold cut in refl)
  | inr e ↦ rw e (
      cut_digits (take (length digits - suc s) digits) _
        (take-All _ (length digits - suc s) digits h))
]

take_cons : (m c : ℕ) (rest : Bytes) → 0 < m → take m (c ∷ rest) ≡ c ∷ take (m - 1) rest
take_cons zero c rest h = absurd (omega arith)
take_cons (suc m) c rest h = ap (λ n. c ∷ take n rest) (omega arith)

-- What is printed behind the sign begins with a digit.
with_point-cons :
    (c : ℕ) (xs : Bytes) (s : ℕ)
    → 48 ≤ c
    → (b : ℕ) × (rest : Bytes) × (with_point (c ∷ xs) s ≡ b ∷ rest) × (48 ≤ b)
unfolding with_point
with_point-cons c xs zero h = (c, xs, refl, h)
with_point-cons c xs (suc s) h = elim (Bool-cases (leb (length (c ∷ xs)) (suc s))) [
  | inl e ↦ (48, b'.' ∷ (zeros (suc s - length (c ∷ xs)) ++ c ∷ xs), rw e refl, omega arith)
  | inr e ↦ (
    c,
    take (length (c ∷ xs) - suc s - 1) xs ++ b'.' ∷ drop (length (c ∷ xs) - suc s) (c ∷ xs),
    rw (e, take_cons (length (c ∷ xs) - suc s) c xs (ground arith)) refl,
    h,
  )
]

trim_minus-with_point : (n s : ℕ) → trim_minus (with_point (show_ℕ n) s) ≡ with_point (show_ℕ n) s
trim_minus-with_point n s =
    let (c, xs, digits, lo, hi) = show_ℕ-cons n in
    let (b, rest, e, big) = with_point-cons c xs s lo in rw (digits, e) (ground arith)

trim_minus-show_ℤ : (u : ℤ) → trim_minus (show_ℤ u) ≡ show_ℕ (mag u)
unfolding show_ℤ
trim_minus-show_ℤ (pos n) = let (c, xs, digits, lo, hi) = show_ℕ-cons n in rw digits (ground arith)
trim_minus-show_ℤ (negsuc n) = refl

trim_sign :
    (b : Bool) (w : Bytes) → trim_minus w ≡ w → trim_minus ((if b then b'-' ∷ [] else []) ++ w) ≡ w
trim_sign true w h = refl
trim_sign false w h = h

trim_minus-to_string :
    (d : Decimal) → trim_minus (to_string d) ≡ with_point (show_ℕ (mag d.unscaled)) d.scale
unfolding to_string place_point
trim_minus-to_string d = rw (trim_minus-show_ℤ d.unscaled) (
    trim_sign (has_minus (show_ℤ d.unscaled)) (with_point (show_ℕ (mag d.unscaled)) d.scale)
      (trim_minus-with_point (mag d.unscaled) d.scale))

abbrev count_whole : Bytes → ℕ
count_whole whole = if bytes_eq whole (bytes "0") then 0 else length whole

digits_before-whole_part :
    (d : Decimal) → digits_before d ≡ count_whole (whole_part (show_ℕ (mag d.unscaled)) d.scale)
unfolding digits_before
digits_before-whole_part d =
    let (c, xs, digits, lo, hi) = show_ℕ-cons (mag d.unscaled) in
    ap (λ t. count_whole (cut t b'.').0) (trim_minus-to_string d)
    ∙ ap count_whole (
        cut-with_point (show_ℕ (mag d.unscaled)) d.scale (show_ℕ-digits (mag d.unscaled))
          (rw digits (omega arith)))

count_whole-take :
    (m c : ℕ) (xs : Bytes)
    → 48 < c
    → m ≤ length (c ∷ xs)
    → 0 < m
    → count_whole (take m (c ∷ xs)) ≡ m
count_whole-take zero c xs big le h = absurd (omega arith)
count_whole-take (suc m) c xs big le h =
    let differs : (c == 48) ≡ false = ground arith in rw differs (length-take (suc m) (c ∷ xs) le)

-- Nothing of a zero counts, and of another number the digits without those of the scale.
count_zero : (s : ℕ) → count_whole (whole_part (show_ℕ 0) s) ≡ 0
unfolding show_ℕ
count_zero zero = refl
count_zero (suc s) = let short : leb 1 (suc s) ≡ true = ground arith in rw short refl

count_digits : (n s : ℕ) → 0 < n → count_whole (whole_part (show_ℕ n) s) ≡ length (show_ℕ n) - s
count_digits n s h =
    let (c, xs, digits, big) = show_ℕ-first n h in
    rw digits (elim (Bool-cases (leb (length (c ∷ xs)) s)) [
      | inl e ↦ rw e (ground arith)
      | inr e ↦ rw e (count_whole-take (length (c ∷ xs) - s) c xs big (omega arith) (ground arith))
    ])

length_at_most : (n j : ℕ) → 0 < n → n < 10 ^ j → length (show_ℕ n) ≤ j
length_at_most n zero k h = absurd (omega arith)
length_at_most n (suc j) k h = length-show_ℕ_le n j h

count_le : (n s k : ℕ) → n < 10 ^ (k + s) → count_whole (whole_part (show_ℕ n) s) ≤ k
count_le zero s k h = rw (count_zero s) (omega arith)
count_le (suc n) s k h =
    rw (count_digits (suc n) s (omega arith))
      (omega (arith, length_at_most (suc n) (k + s) (omega arith) h))

count_lt : (n s k : ℕ) → 10 ^ (k + s) ≤ n → k < count_whole (whole_part (show_ℕ n) s)
count_lt zero s k h = absurd (omega (arith, pos_ten (k + s)))
count_lt (suc n) s k h =
    rw (count_digits (suc n) s (omega arith)) (omega (arith, length-show_ℕ_lt (suc n) (k + s) h))

-- The digits before the point are at most `k` exactly where the number is below that power of ten.
pub digits_before_le :
    (d : Decimal) (k : ℕ) → mag d.unscaled < 10 ^ (k + d.scale) → digits_before d ≤ k
digits_before_le d k h = rw (digits_before-whole_part d) (count_le (mag d.unscaled) d.scale k h)

pub digits_before_lt :
    (d : Decimal) (k : ℕ) → 10 ^ (k + d.scale) ≤ mag d.unscaled → k < digits_before d
digits_before_lt d k h = rw (digits_before-whole_part d) (count_lt (mag d.unscaled) d.scale k h)
