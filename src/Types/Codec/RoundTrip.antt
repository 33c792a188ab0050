-- ===== src/Types/Codec/RoundTrip.antt =====
-- Encoding a value and decoding it again (internal/types/codec.go).
use native.Mathlib.Omega.{arith}
use lightsql.Common.{
  ℕ, zero, suc, ◌+◌, ◌/◌, ◌^◌, ◌≤◌, ◌<◌, false, [], ◌∷◌, ◌++◌, Option, some, ltb, ◌≡◌, refl, ap,
  ◌∙◌, Bytes, bytes_eq_refl, ==_refl, append_assoc, length, length-append, take-append, drop-append,
  ok, inl, inr, Bool-cases, ltb→lt,
}
use lightsql.Common.Digits.{show_ℤ, read_ℤ-show_ℤ}
use lightsql.Common.Varint.{
  append_uvarint, append_uvarint_rounds, uvarint-append_uvarint, uvarint_fuel, uvarint_fuel-small,
  uvarint_fuel-large, le_bytes, le_word-le_bytes,
}
use lightsql.Types.Value.{
  Value, Kind, kind_number, null, bool, int, float, text, bytea, date, time, timestamp, timestamptz,
  json, jsonb,
}
use lightsql.Types.Value
use lightsql.Types.Decimal.{Decimal}
use lightsql.Types.Numeric.{numeric, as_decimal}
use lightsql.Types.Numeric.Encoding.{as_decimal-numeric}
use lightsql.Types.Codec.{
  max_encoded_len, len_fuel, uvarint_len, take_uvarint, take_text, append_text, words, textual,
  layout, append_number, append_value, payload, kind_of, decode_number, decode_digits, text_value,
  decode_payload, decode_value,
}

length-uvarint_fuel :
    (f n size : ℕ) → length (uvarint_fuel (suc f) n) + size ≡ suc (len_fuel f n size)
unfolding uvarint_fuel len_fuel
length-uvarint_fuel zero n size = ground arith
length-uvarint_fuel (suc f) n size = elim (Bool-cases (ltb n 128)) [
  | inl small ↦ let lt = ltb→lt n 128 small in rw (uvarint_fuel-small (suc f) n lt) (ground arith)
  | inr large ↦
      let le : 128 ≤ n = ground arith in
      rw (uvarint_fuel-large (suc f) n le)
        (ground (arith, length-uvarint_fuel f (n / 128) (size + 1)))
]

uvarint_len_rounds : (n : ℕ) → uvarint_len n ≡ len_fuel 9 n 1
unfolding uvarint_len len_fuel
uvarint_len_rounds n = refl

length-append_uvarint :
    (n : ℕ) (rest : Bytes) → length (append_uvarint n ++ rest) ≡ length rest + uvarint_len n
length-append_uvarint n rest =
    length-append (append_uvarint n) rest
    ∙ rw (append_uvarint_rounds n)
        (rw (uvarint_len_rounds n) (omega (arith, length-uvarint_fuel 9 n 1)))

pub take_uvarint-append_uvarint :
    (n : ℕ) (rest : Bytes) → n < 2 ^ 64 → take_uvarint (append_uvarint n ++ rest) ≡ ok (n, rest)
unfolding take_uvarint
take_uvarint-append_uvarint n rest h =
    rw (take_uvarint, uvarint-append_uvarint n rest h)
      (rw (length-append_uvarint n rest) (rw (==_refl (length rest + uvarint_len n)) refl))

-- What a length prefix can say.
leb→ltb : (n : ℕ) → n ≤ 2 ^ 30 → ltb max_encoded_len n ≡ false
leb→ltb n h = ground arith

pub take_text-append_text :
    (s rest : Bytes) → length s ≤ 2 ^ 30 → take_text (append_text s ++ rest) ≡ ok (s, rest)
unfolding take_text append_text
take_text-append_text s rest h =
    let e = append_assoc (append_uvarint (length s)) s rest in
    let r = take_uvarint-append_uvarint (length s) (s ++ rest) (omega arith) in
    rw e (rw r (rw (length-append s rest, take-append s rest, drop-append s rest) (ground arith)))

decode_digits-show_ℤ : (d : Decimal) → decode_digits d.scale (show_ℤ d.unscaled) ≡ ok (numeric d)
unfolding decode_digits
decode_digits-show_ℤ d =
    rw (decode_digits, read_ℤ-show_ℤ d.unscaled, bytes_eq_refl (show_ℤ d.unscaled)) refl

decode_number-append_number :
    (d : Decimal) (rest : Bytes)
    → d.scale ≤ 2 ^ 30
    → length (show_ℤ d.unscaled) ≤ 2 ^ 30
    → decode_number (append_number (some d) ++ rest) ≡ ok (numeric d, rest)
unfolding decode_number append_number
decode_number-append_number d rest hs hl =
    rw (append_assoc (append_uvarint d.scale) (append_text (show_ℤ d.unscaled)) rest) (
      rw
        (take_uvarint-append_uvarint d.scale (append_text (show_ℤ d.unscaled) ++ rest)
          (omega arith))
        (rw
          (
            leb→ltb d.scale hs,
            take_text-append_text (show_ℤ d.unscaled) rest hl,
            decode_digits-show_ℤ d,
          )
          refl))

kind_of-kind_number : (k : Kind) → kind_of (kind_number k) ≡ some k
unfolding kind_of
kind_of-kind_number null = refl
kind_of-kind_number bool = refl
kind_of-kind_number int = refl
kind_of-kind_number float = refl
kind_of-kind_number text = refl
kind_of-kind_number bytea = refl
kind_of-kind_number date = refl
kind_of-kind_number time = refl
kind_of-kind_number timestamp = refl
kind_of-kind_number timestamptz = refl
kind_of-kind_number json = refl
kind_of-kind_number jsonb = refl
kind_of-kind_number Value.numeric = refl

-- The values that the constructors of package types make, within the sizes that a log may hold: only
-- the fields of the kind are set. A jsonb is canonical, if `parse_jsonb` reads it at all.
pub data IsStored (parse_jsonb : Bytes → Option Value) : Value → Type 0 where
  is_null : IsStored parse_jsonb (record { k = null; scale = 0; n = 0; s = [] })
  is_words :
      (k : Kind) (n : ℕ)
      → layout k ≡ words
      → n < 2 ^ 64
      → IsStored parse_jsonb (record { k = k; scale = 0; n = n; s = [] })
  is_textual :
      (k : Kind) (s : Bytes)
      → layout k ≡ textual
      → length s ≤ 2 ^ 30
      → text_value parse_jsonb k s ≡ record { k = k; scale = 0; n = 0; s = s }
      → IsStored parse_jsonb (record { k = k; scale = 0; n = 0; s = s })
  is_number :
      (d : Decimal)
      → d.scale ≤ 2 ^ 30
      → length (show_ℤ d.unscaled) ≤ 2 ^ 30
      → IsStored parse_jsonb (numeric d)

k-numeric : (d : Decimal) → (numeric d).k ≡ Value.numeric
unfolding numeric
k-numeric d = ground arith

append_value-number :
    (v : Value) → v.k ≡ Value.numeric → append_value v ≡ 12 ∷ append_number (as_decimal v)
unfolding append_value
append_value-number v e = ap (λ (k : Kind). kind_number k ∷ payload k v) e

append_value-numeric :
    (d : Decimal) → d.scale < 2 ^ 31 → append_value (numeric d) ≡ 12 ∷ append_number (some d)
append_value-numeric d h =
    append_value-number (numeric d) (k-numeric d)
    ∙ ap (λ v. 12 ∷ append_number v) (as_decimal-numeric d h)

module _ (parse_jsonb : Bytes → Option Value) where
  decode_value-kind :
      (k : Kind) (src : Bytes)
      → decode_value parse_jsonb (kind_number k ∷ src) ≡ decode_payload parse_jsonb k src
  unfolding decode_value
  decode_value-kind k src = rw (decode_value, kind_of-kind_number k) refl

  decode_words :
      (k : Kind) (n : ℕ) (rest : Bytes)
      → layout k ≡ words
      → n < 2 ^ 64
      → decode_payload parse_jsonb k (le_bytes 8 n ++ rest)
        ≡ ok (record { k = k; scale = 0; n = n; s = [] }, rest)
  unfolding decode_payload
  decode_words k n rest e h =
      rw (decode_payload, e) (rw (le_word-le_bytes 8 n rest (omega arith)) refl)

  decode_textual :
      (k : Kind) (s rest : Bytes)
      → layout k ≡ textual
      → length s ≤ 2 ^ 30
      → decode_payload parse_jsonb k (append_text s ++ rest) ≡ ok (text_value parse_jsonb k s, rest)
  unfolding decode_payload
  decode_textual k s rest e h = rw (decode_payload, e) (rw (take_text-append_text s rest h) refl)

  decode_null :
      (rest : Bytes)
      → decode_payload parse_jsonb null rest
        ≡ ok (record { k = null; scale = 0; n = 0; s = [] }, rest)
  unfolding decode_payload
  decode_null rest = refl

  decode_numeric :
      (d : Decimal) (rest : Bytes)
      → d.scale ≤ 2 ^ 30
      → length (show_ℤ d.unscaled) ≤ 2 ^ 30
      → decode_value parse_jsonb (append_value (numeric d) ++ rest) ≡ ok (numeric d, rest)
  decode_numeric d rest hs hl =
      ap (λ (t : Bytes). decode_value parse_jsonb (t ++ rest))
        (append_value-numeric d (omega arith))
      ∙ decode_value-kind Value.numeric (append_number (some d) ++ rest)
      ∙ unfold decode_payload in decode_number-append_number d rest hs hl

  -- A stored value that was written is read back, and what follows it is left.
  pub decode_value-append_value :
      (v : Value) (rest : Bytes)
      → IsStored parse_jsonb v
      → decode_value parse_jsonb (append_value v ++ rest) ≡ ok (v, rest)
  unfolding append_value
  decode_value-append_value v rest is_null = decode_value-kind null rest ∙ decode_null rest
  decode_value-append_value v rest (is_words k n e h) =
      rw e (decode_value-kind k (le_bytes 8 n ++ rest) ∙ decode_words k n rest e h)
  decode_value-append_value v rest (is_textual k s e h c) = rw e (
      decode_value-kind k (append_text s ++ rest)
      ∙ decode_textual k s rest e h
      ∙ ap (λ w. ok (w, rest)) c)
  decode_value-append_value v rest (is_number d hs hl) = decode_numeric d rest hs hl
