-- ===== src/Types/Bytea/RoundTrip.antt =====
-- The text forms of a byte string are read back (internal/types/bytea.go).
use native.Mathlib.Nat.{div-add-mod}
use lightsql.Common.{
  inl, inr, Bool-cases, sym, ℕ, ◌*◌, ◌/◌, ◌%◌, ◌<◌, ◌≡◌, refl, ap, ◌∙◌, true, false, not, [], ◌∷◌,
  some, ◌==◌, if◌then◌else◌, Bytes, length, keep, All, arith,
}
use lightsql.Types.Bytea.{
  hex_digit, hex_value, encode_hex, decode_hex, is_blank, parse_hex, outside, escape_from,
  parse_escape, parse_bytea, encode_bytea,
}

hex_value-hex_digit : (n : ℕ) → n < 16 → hex_value (hex_digit n) ≡ some n
unfolding hex_value hex_digit
hex_value-hex_digit n h = ground arith

hex_digit-is_blank : (n : ℕ) → n < 16 → is_blank (hex_digit n) ≡ false
unfolding hex_digit
hex_digit-is_blank n h = ground arith

decode_hex-encode_hex : (b : Bytes) → All (λ x. x < 256) b → decode_hex (encode_hex b) ≡ some b
unfolding decode_hex encode_hex
decode_hex-encode_hex [] h = refl
decode_hex-encode_hex (x ∷ b) h =
    let high = hex_value-hex_digit (x / 16) (omega (arith, h.0)) in
    let low = hex_value-hex_digit (x % 16) (omega arith) in
    rw (high, low, decode_hex-encode_hex b h.1)
      (ap (λ (n : ℕ). some (n ∷ b)) (omega (arith, div-add-mod x 16)))

keep-encode_hex :
    (b : Bytes) → All (λ x. x < 256) b → keep (λ c. not (is_blank c)) (encode_hex b) ≡ encode_hex b
unfolding keep encode_hex
keep-encode_hex [] h = refl
keep-encode_hex (x ∷ b) h =
    let high = hex_digit-is_blank (x / 16) (omega (arith, h.0)) in
    let low = hex_digit-is_blank (x % 16) (omega arith) in
    rw (high, low, keep-encode_hex b h.1) refl

length-encode_hex : (b : Bytes) → length (encode_hex b) ≡ 2 * length b
unfolding encode_hex
length-encode_hex [] = refl
length-encode_hex (x ∷ b) = omega (arith, length-encode_hex b)

-- The escape form: every backslash is doubled.
unfoldable pub doubled : Bytes → Bytes
doubled [] = []
doubled (c ∷ s) = let rest = doubled s in if c == 92 then 92 ∷ 92 ∷ rest else c ∷ rest

escape_from-doubled : (b : Bytes) → escape_from outside (doubled b) ≡ some b
unfolding escape_from doubled
escape_from-doubled [] = refl
escape_from-doubled (c ∷ s) = elim (Bool-cases (c == 92)) [
  | inl slash ↦
      rw slash (rw (escape_from-doubled s) (ap (λ (n : ℕ). some (n ∷ s)) (sym (is_slash slash))))
  | inr plain ↦ rw plain (rw (plain, escape_from-doubled s) refl)
]
  where
    is_slash : c == 92 ≡ true → c ≡ 92
    is_slash h = ground arith

parse_hex-encode_hex : (b : Bytes) → All (λ x. x < 256) b → parse_hex (encode_hex b) ≡ some b
unfolding parse_hex
parse_hex-encode_hex b h =
    rw (parse_hex, keep-encode_hex b h, length-encode_hex b)
      (rw (even (length b)) (decode_hex-encode_hex b h))
  where
    even : (n : ℕ) → 2 * n % 2 == 0 ≡ true
    even n = ground arith

unmarked : (c : ℕ) (s : Bytes) → c == 92 ≡ false → parse_bytea (c ∷ s) ≡ parse_escape (c ∷ s)
unfolding parse_bytea
unmarked c [] h = refl
unmarked c (d ∷ s) h = rw (parse_bytea, h) refl

not_hex : (b : Bytes) → parse_bytea (doubled b) ≡ parse_escape (doubled b)
unfolding parse_bytea doubled
not_hex [] = refl
not_hex (c ∷ s) = elim (Bool-cases (c == 92)) [
  | inl slash ↦ rw slash refl
  | inr plain ↦ rw plain (unmarked c (doubled s) plain)
]

-- A byte string is read back from the text that it is printed as, and from its escape form, in which every
-- backslash is doubled.
pub parse_bytea-encode_bytea :
    (b : Bytes)
    → All (λ x. x < 256) b
    → (parse_bytea (encode_bytea b) ≡ some b) × (parse_bytea (doubled b) ≡ some b)
parse_bytea-encode_bytea b h = (
  unfold parse_bytea encode_bytea in parse_hex-encode_hex b h,
  not_hex b ∙ unfold parse_escape in escape_from-doubled b,
)
