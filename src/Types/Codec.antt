-- ===== src/Types/Codec.antt =====
-- internal/types/codec.go: the encoding of a value in the log. ParseJSONB of json.go, with which a
-- jsonb is canonicalised again when it is read, is the parameter `parse_jsonb`.
pub mod RoundTrip
use lightsql.Common.{
  ℕ, zero, suc, ◌+◌, ◌/◌, ◌^◌, Bool, true, false, not, List, [], ◌∷◌, ◌++◌, Option, none, some, ltb,
  leb, ◌==◌, if◌then◌else◌, Bytes, bytes_eq, length, take, drop, Result, ok, err, data_corrupted,
  ◌>>=◌,
}
use lightsql.Common.Digits.{show_ℤ, read_ℤ}
use lightsql.Common.Varint.{append_uvarint, uvarint, le_bytes, le_word}
use lightsql.Types.Value.{
  Value, Kind, kind_number, null, bool, int, float, text, bytea, date, time, timestamp, timestamptz,
  json, jsonb,
}
use lightsql.Types.Value
use lightsql.Types.Decimal.{Decimal}
use lightsql.Types.Numeric.{numeric, as_decimal}

-- `maxEncodedLen`
abbrev pub max_encoded_len : ℕ
max_encoded_len = 2 ^ 30

-- The loop of `uvarintLen`; a uint64 takes nine rounds at most.
unfoldable pub len_fuel : ℕ → ℕ → ℕ → ℕ
len_fuel zero n size = size
len_fuel (suc f) n size =
    let more = len_fuel f (n / 128) (size + 1) in if leb 128 n then more else size

unfoldable pub uvarint_len : ℕ → ℕ
unfolding len_fuel
uvarint_len n = len_fuel 9 n 1

-- A length prefix: `binary.Uvarint` and the refusal of an encoding that is not minimal.
unfoldable pub take_uvarint : Bytes → Result (ℕ × Bytes)
unfolding uvarint_len
take_uvarint src = elim (uvarint src) [
  | none ↦ err data_corrupted
  | some (n, rest) ↦
      if not (length src == length rest + uvarint_len n) then err data_corrupted else ok (n, rest)
]

-- A length prefix and as many bytes.
unfoldable pub take_text : Bytes → Result (Bytes × Bytes)
unfolding take_uvarint
take_text src = take_uvarint src >>= λ (len : ℕ × Bytes).
    if ltb max_encoded_len len.0
    then err data_corrupted
    else if ltb (length len.1) len.0
    then err data_corrupted
    else ok (take len.0 len.1, drop len.0 len.1)

unfoldable pub append_text : Bytes → Bytes
append_text s = append_uvarint (length s) ++ s

-- Which of the payload layouts a kind has.
pub data Layout : Type 0 where
  nothing words textual number : Layout

unfoldable pub layout : Kind → Layout
layout null = nothing
layout text = textual
layout bytea = textual
layout json = textual
layout jsonb = textual
layout Value.numeric = number
layout _ = words

unfoldable pub append_number : Option Decimal → Bytes
append_number none = []
append_number (some d) = append_uvarint d.scale ++ append_text (show_ℤ d.unscaled)

-- The bytes of a value after its kind.
unfoldable pub payload : Kind → Value → Bytes
unfolding append_number layout append_text
payload k v = elim (layout k) [
  | nothing ↦ []
  | textual ↦ append_text v.s
  | number ↦ append_number (as_decimal v)
  | words ↦ le_bytes 8 v.n
]

-- `AppendValue`: what it appends.
unfoldable pub append_value : Value → Bytes
unfolding payload
append_value v = kind_number v.k ∷ payload v.k v

-- `Kind(src[0])` and its test against the number of kinds.
unfoldable pub kind_of : ℕ → Option Kind
kind_of b =
    if b == 0
    then some null
    else if b == 1
    then some bool
    else if b == 2
    then some int
    else if b == 3
    then some float
    else if b == 4
    then some text
    else if b == 5
    then some bytea
    else if b == 6
    then some date
    else if b == 7
    then some time
    else if b == 8
    then some timestamp
    else if b == 9
    then some timestamptz
    else if b == 10
    then some json
    else if b == 11
    then some jsonb
    else if b == 12
    then some Value.numeric
    else none

-- The digits of a decimal of the given scale.
unfoldable pub decode_digits : ℕ → Bytes → Result Value
decode_digits scale digits = elim (read_ℤ digits) [
  | none ↦ err data_corrupted
  | some unscaled ↦
      if not (bytes_eq (show_ℤ unscaled) digits)
      then err data_corrupted
      else ok (numeric (record { unscaled = unscaled; scale = scale }))
]

unfoldable pub decode_number : Bytes → Result (Value × Bytes)
unfolding take_uvarint take_text decode_digits
decode_number src = take_uvarint src >>= λ (scale : ℕ × Bytes).
    if ltb max_encoded_len scale.0
    then err data_corrupted
    else take_text scale.1 >>= λ (digits : Bytes × Bytes).
        decode_digits scale.0 digits.0 >>= λ v. ok (v, digits.1)

module _ (parse_jsonb : Bytes → Option Value) where
  unfoldable pub text_value : Kind → Bytes → Value
  text_value jsonb s = elim (parse_jsonb s) [
    | none ↦ record { k = jsonb; scale = 0; n = 0; s = s }
    | some v ↦ v
  ]
  text_value k s = record { k = k; scale = 0; n = 0; s = s }

  unfoldable pub decode_payload : Kind → Bytes → Result (Value × Bytes)
  unfolding decode_number layout take_text text_value
  decode_payload k src = elim (layout k) [
    | nothing ↦ ok (record { k = null; scale = 0; n = 0; s = [] }, src)
    | number ↦ decode_number src
    | textual ↦ take_text src >>= λ (t : Bytes × Bytes). ok (text_value k t.0, t.1)
    | words ↦ elim (le_word 8 src) [
      | none ↦ err data_corrupted
      | some (n, src) ↦ ok (record { k = k; scale = 0; n = n; s = [] }, src)
    ]
  ]

  -- `DecodeValue`
  unfoldable pub decode_value : Bytes → Result (Value × Bytes)
  unfolding kind_of decode_payload
  decode_value [] = err data_corrupted
  decode_value (b ∷ src) = elim (kind_of b) [
    | none ↦ err data_corrupted
    | some k ↦ decode_payload k src
  ]
