-- ===== src/Scanner/Consumes.antt =====
-- How far the loops of internal/scanner/scanner.go move, in bytes.
use lightsql.Common.{
  ℕ, zero, suc, ◌+◌, ◌-◌, ◌≤◌, ◌<◌, ◌≡◌, refl, Bool, true, not, [], ◌∷◌, Option, none, some, ◌==◌,
  Bytes, take, drop, length, arith, inl, inr, ◌⊎◌, Result, ok, err, ◌>>=◌, by_test, syntax_error,
}
use lightsql.Common.Digits.{is_digit}
use lightsql.Scanner.Lexeme.{
  next_is, skip_while, between, skip_block, skip_rounds, skip_space_and_comments, skip_exponent,
  skip_number, string_body, quoted_body, push, unescape, skip_tag, index, dollar_quoted,
}

pub drop_le : (n : ℕ) (s : Bytes) → length (drop n s) ≤ length s
drop_le zero s = omega arith
drop_le (suc n) [] = omega arith
drop_le (suc n) (c ∷ s) = omega (arith, drop_le n s)

pub skip_while_le : (p : ℕ → Bool) (s : Bytes) → length (skip_while p s) ≤ length s
unfolding skip_while
skip_while_le p [] = omega arith
skip_while_le p (c ∷ s) = ground (arith, skip_while_le p s)

pub skip_while_lt :
    (p : ℕ → Bool) (c : ℕ) (s : Bytes) → p c ≡ true → length (skip_while p (c ∷ s)) < suc (length s)
unfolding skip_while
skip_while_lt p c s h = rw h (omega (arith, skip_while_le p s))

skip_block_lt :
    (depth : ℕ) (s after : Bytes) → skip_block depth s ≡ ok after → length after < length s
unfolding skip_block
skip_block_lt depth [] after h = ground arith
skip_block_lt depth (c ∷ []) after h = ground arith
skip_block_lt depth (c ∷ d ∷ s) after h = ground (
  arith,
  skip_block_lt (depth + 1) s after,
  skip_block_lt (depth - 1) s after,
  skip_block_lt depth (d ∷ s) after,
)

pub skip_exponent_le : (s : Bytes) → length (skip_exponent s) ≤ length s
unfolding skip_exponent
skip_exponent_le [] = omega arith
skip_exponent_le (c ∷ s) =
    ground (arith, skip_while_le is_digit s, skip_while_le is_digit (drop 1 s), drop_le 1 s)

abbrev pub bytes_left : Result (Bytes × Bytes) → ℕ
bytes_left (ok (val, rest)) = length rest
bytes_left (err e) = 0

bytes_left-push : (c : ℕ) (r : Result (Bytes × Bytes)) → bytes_left (push c r) ≡ bytes_left r
bytes_left-push c (ok (val, rest)) = refl
bytes_left-push c (err e) = refl

pub string_body_le : (escapes : Bool) (s : Bytes) → bytes_left (string_body escapes s) ≤ length s
unfolding string_body
string_body_le escapes [] = omega arith
string_body_le escapes (c ∷ []) = ground arith
string_body_le escapes (c ∷ d ∷ s) = ground (
  arith,
  string_body_le escapes s,
  string_body_le escapes (d ∷ s),
  bytes_left-push b'\'' (string_body escapes s),
  bytes_left-push c (string_body escapes (d ∷ s)),
  bytes_left-push (unescape d) (string_body escapes s),
)

pub quoted_body_le : (s : Bytes) → bytes_left (quoted_body s) ≤ length s
unfolding quoted_body
quoted_body_le [] = omega arith
quoted_body_le (c ∷ []) = ground arith
quoted_body_le (c ∷ d ∷ s) = ground (
  arith,
  quoted_body_le s,
  quoted_body_le (d ∷ s),
  bytes_left-push b'"' (quoted_body s),
  bytes_left-push c (quoted_body (d ∷ s)),
)

skip_tag_le : (s after : Bytes) → skip_tag s ≡ ok after → length after ≤ length s
unfolding skip_tag
skip_tag_le [] after h = ground arith
skip_tag_le (c ∷ s) after h = ground (arith, skip_tag_le s after)

body_le :
    (body delim : Bytes) (i : Option ℕ)
    → bytes_left (elim i [
      | none ↦ err syntax_error
      | some end ↦ ok (take end body, drop (end + length delim) body)
    ])
      ≤ length body
body_le body delim none = omega arith
body_le body delim (some end) = drop_le (end + length delim) body

after_tag_le :
    (rest : Bytes) (r : Result Bytes)
    → ((after : Bytes) → r ≡ ok after → length after ≤ length rest)
    → (delim : Bytes → Bytes)
    → bytes_left (
        r >>= λ body. elim (index body (delim body)) [
          | none ↦ err syntax_error
          | some end ↦ ok (take end body, drop (end + length (delim body)) body)
        ])
      ≤ length rest
after_tag_le rest (err e) h delim = omega arith
after_tag_le rest (ok body) h delim =
    omega (arith, h body refl, body_le body (delim body) (index body (delim body)))

pub dollar_quoted_le : (s : Bytes) → bytes_left (dollar_quoted s) ≤ length (drop 1 s)
unfolding dollar_quoted
dollar_quoted_le s =
    after_tag_le (drop 1 s) (skip_tag (drop 1 s)) (skip_tag_le (drop 1 s)) (between s)

pub skip_number_le : (s : Bytes) → length (skip_number s) ≤ length (skip_while is_digit s)
unfolding skip_number
skip_number_le s =
    by_test (λ t. length (skip_exponent t) ≤ length (skip_while is_digit s))
      (next_is (λ c. c == b'.') (skip_while is_digit s))
      (skip_while is_digit (drop 1 (skip_while is_digit s))) (skip_while is_digit s)
      (λ _. omega (
        arith,
        skip_exponent_le (skip_while is_digit (drop 1 (skip_while is_digit s))),
        skip_while_le is_digit (drop 1 (skip_while is_digit s)),
        drop_le 1 (skip_while is_digit s),
      ))
      (λ _. skip_exponent_le (skip_while is_digit s))

-- A numeral takes a byte: its first digit, or the dot that it begins with.
pub skip_number_lt :
    (c : ℕ) (s : Bytes)
    → (is_digit c ≡ true) ⊎ ((c == b'.') ≡ true)
    → length (skip_number (c ∷ s)) ≤ length s
skip_number_lt c s (inl digit) =
    omega (arith, skip_number_le (c ∷ s), skip_while_lt is_digit c s digit)
skip_number_lt c s (inr is_dot) =
    let e : skip_while is_digit (c ∷ s) ≡ c ∷ s = unfold skip_while in ground arith in
    unfold skip_number in
    rw (e, is_dot)
      (omega (arith, skip_exponent_le (skip_while is_digit s), skip_while_le is_digit s))

after_block_le :
    (s after : Bytes) (next : Bytes → Result Bytes) (r : Result Bytes)
    → ((rest : Bytes) → r ≡ ok rest → length rest < length s)
    → ((rest : Bytes) → next rest ≡ ok after → length after ≤ length rest)
    → elim r [ err e ↦ err e | ok rest ↦ next rest ] ≡ ok after
    → length after ≤ length s
after_block_le s after next (err e) hr hn k = ground arith
after_block_le s after next (ok rest) hr hn k = omega (arith, hr rest refl, hn rest k)

skip_rounds_le : (f : ℕ) (s after : Bytes) → skip_rounds f s ≡ ok after → length after ≤ length s
unfolding skip_rounds
skip_rounds_le zero s after h = ground arith
skip_rounds_le (suc f) [] after h = ground arith
skip_rounds_le (suc f) (c ∷ s) after h = ground (
  arith,
  skip_rounds_le f s after,
  skip_rounds_le f (skip_while (λ d. not (d == 10)) (drop 1 s)) after,
  skip_while_le (λ d. not (d == 10)) (drop 1 s),
  drop_le 1 s,
  after_block_le (c ∷ s) after (skip_rounds f) (skip_block 0 (c ∷ s)) (skip_block_lt 0 (c ∷ s))
      (λ rest k. skip_rounds_le f rest after k),
)

pub skip_space_and_comments_le :
    (s after : Bytes) → skip_space_and_comments s ≡ ok after → length after ≤ length s
unfolding skip_space_and_comments
skip_space_and_comments_le s after h = skip_rounds_le (length s) s after h
