-- ===== src/Wal/Frame/Torn.antt =====
-- A frame that was cut short is not a frame (internal/wal/log.go).
use native.Mathlib.Omega.{arith}
use lightsql.Common.{
  ℕ, zero, suc, ◌+◌, ◌-◌, ◌%◌, ◌^◌, ◌≤◌, ◌<◌, List, [], ◌∷◌, ◌++◌, Option, none, some, ltb, ◌≡◌,
  inl, inr, refl, ap, ◌∙◌, Bool-cases, Option-cases, ltb→lt, ◌*◌, Bytes, length, take, err,
  data_corrupted,
}
use lightsql.Common.Varint.{le_bytes, le_word}
use lightsql.Types.Value.{Value}
use lightsql.Wal.Record.{Record}
use lightsql.Wal.Frame.{body, encode, open_frame, read_header, next_frame}
use lightsql.Wal.Frame.RoundTrip.{
  IsTransaction, IsTail, next_frame-header, next_frame-read_header, length-encode, length-le_bytes,
}

module _ {ℓ} {A : Type ℓ} where
  pub length-take : (n : ℕ) (xs : List A) → n ≤ length xs → length (take n xs) ≡ n
  length-take zero xs h = refl
  length-take (suc n) [] h = ground arith
  length-take (suc n) (x ∷ xs) h = omega (arith, length-take n xs (omega arith))

  -- A prefix that reaches into the second of two lists.
  pub take-past : (xs ys : List A) (n : ℕ) → take (length xs + n) (xs ++ ys) ≡ xs ++ take n ys
  take-past [] ys n = ap (λ (m : ℕ). take m ys) (omega arith)
  take-past (x ∷ xs) ys n =
      ap (λ (m : ℕ). take m (x ∷ (xs ++ ys))) (m_suc (length xs) n)
      ∙ ap (λ t. x ∷ t) (take-past xs ys n)
    where
      m_suc : (a n : ℕ) → suc a + n ≡ suc (a + n)
      m_suc a n = omega arith

  pub take-all : (xs : List A) (n : ℕ) → length xs ≤ n → take n xs ≡ xs
  take-all [] zero h = refl
  take-all [] (suc n) h = refl
  take-all (x ∷ xs) zero h = ground arith
  take-all (x ∷ xs) (suc n) h = ap (λ t. x ∷ t) (take-all xs n (omega arith))

le_word-short : (k : ℕ) (src : Bytes) → length src < k → le_word k src ≡ none
unfolding le_word
le_word-short zero src h = ground arith
le_word-short (suc k) [] h = refl
le_word-short (suc k) (b ∷ bs) h = rw (le_word-short k bs (omega arith)) refl

le_word-left :
    (k : ℕ) (src : Bytes) (n : ℕ) (rest : Bytes)
    → le_word k src ≡ some (n, rest)
    → length src ≡ k + length rest
unfolding le_word
le_word-left zero src n rest h = ground arith
le_word-left (suc k) [] n rest h = ground arith
le_word-left (suc k) (b ∷ bs) n rest h = elim (Option-cases (le_word k bs)) [
  | inl e ↦
      let bad : ◌≡◌ {A = Option (ℕ × Bytes)} none (some (n, rest)) = rw (e, le_word) at h in cc
  | inr ((m, r), e) ↦
      let same : ◌≡◌ {A = Option (ℕ × Bytes)} (some (b + 256 * m, r)) (some (n, rest)) =
        rw (e, le_word) at h in
      let tail : r ≡ rest = cc in omega (arith, le_word-left k bs m r e, ap length tail)
]

module _ (checksum : Bytes → ℕ) (parse_jsonb : Bytes → Option Value) where
  read_header-short :
      (src : Bytes) → length src < 8 → read_header checksum parse_jsonb src ≡ err data_corrupted
  unfolding read_header
  read_header-short src h = elim (Option-cases (le_word 4 src)) [
    | inl e ↦ rw (read_header, e) refl
    | inr ((n, sums), e) ↦
        let left = le_word-left 4 src n sums e in
        rw (read_header, e) (rw (le_word-short 4 sums (omega arith)) refl)
  ]

  -- Fewer bytes than a header has.
  short_header : (src : Bytes) → length src < 8 → IsTail checksum parse_jsonb src
  short_header [] h = inl refl
  short_header (b ∷ bs) h = inr (
      next_frame-read_header checksum parse_jsonb (b ∷ bs) (λ e. cc) ∙ read_header-short (b ∷ bs) h)

  -- A body that ends early.
  open_frame-short :
      (n c : ℕ) (src : Bytes)
      → n ≤ 2 ^ 30
      → length src < n
      → open_frame checksum parse_jsonb n c src ≡ err data_corrupted
  unfolding open_frame
  open_frame-short n c src h short =
      let low : length src % 2 ^ 32 ≡ length src = omega arith in ground (arith, low)

  take-encode :
      (t : List Record) (j : ℕ)
      → take (8 + j) (encode checksum t)
        ≡ le_bytes 4 (length (body t)) ++ (le_bytes 4 (checksum (body t)) ++ take j (body t))
  unfolding encode
  take-encode t j =
      let h1 = le_bytes 4 (length (body t)) in
      let h2 = le_bytes 4 (checksum (body t)) in
      ap (λ (m : ℕ). take m (h1 ++ (h2 ++ body t)))
        (omega (arith, length-le_bytes 4 (length (body t)), length-le_bytes 4 (checksum (body t))))
      ∙ take-past h1 (h2 ++ body t) (length h2 + j)
      ∙ ap (λ s. h1 ++ s) (take-past h2 (body t) j)

  module _ (word : (b : Bytes) → checksum b < 2 ^ 32) where
    -- A transaction of which not all bytes were written is no frame: recovery sees all of it or nothing.
    pub take-encode-IsTail :
        (t : List Record) (n : ℕ)
        → IsTransaction parse_jsonb t
        → n < length (encode checksum t)
        → IsTail checksum parse_jsonb (take n (encode checksum t))
    take-encode-IsTail t n h cut = elim (Bool-cases (ltb n 8)) [
      | inl few ↦
          short_header (take n (encode checksum t))
            (omega (arith, ltb→lt n 8 few, length-take n (encode checksum t) (omega arith)))
      | inr many ↦
          let at : 8 ≤ n = ground arith in
          let split : n ≡ 8 + (n - 8) = omega arith in
          let j = n - 8 in
          let short = length-encode checksum t in
          inr (
            ap (λ (m : ℕ). next_frame checksum parse_jsonb (take m (encode checksum t))) split
            ∙ ap (next_frame checksum parse_jsonb) (take-encode t j)
            ∙ next_frame-header checksum parse_jsonb (length (body t)) (checksum (body t))
                (take j (body t)) (omega (arith, h.short)) (word (body t))
            ∙ open_frame-short (length (body t)) (checksum (body t)) (take j (body t)) h.short
                (omega (arith, length-take j (body t) (omega arith))))
    ]
