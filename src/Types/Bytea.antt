-- ===== src/Types/Bytea.antt =====
-- internal/types/bytea.go: the text forms of a byte string. Which of its reasons an error gives is not
-- modelled: `none` is any of them.
pub mod RoundTrip
use lightsql.Common.{
  ℕ, ◌+◌, ◌-◌, ◌*◌, ◌/◌, ◌%◌, Bool, true, false, ◌&&◌, ◌||◌, not, List, [], ◌∷◌, Option, none, some,
  ltb, leb, ◌==◌, if◌then◌else◌, Bytes, length, keep,
}

-- A digit of package encoding/hex.
unfoldable pub hex_digit : ℕ → ℕ
hex_digit n = if ltb n 10 then 48 + n else 87 + n

unfoldable pub hex_value : ℕ → Option ℕ
hex_value c =
    if leb 48 c && leb c 57
    then some (c - 48)
    else if leb 97 c && leb c 102
    then some (c - 87)
    else if leb 65 c && leb c 70
    then some (c - 55)
    else none

-- `hex.EncodeToString`
unfoldable pub encode_hex : Bytes → Bytes
unfolding hex_digit
encode_hex [] = []
encode_hex (b ∷ bs) = hex_digit (b / 16) ∷ hex_digit (b % 16) ∷ encode_hex bs

-- The byte of two digits in front of others.
abbrev pub pair : Option ℕ → Option ℕ → Option Bytes → Option Bytes
pair (some x) (some y) (some bs) = some ((x * 16 + y) ∷ bs)
pair _ _ _ = none

-- `hex.DecodeString`
unfoldable pub decode_hex : Bytes → Option Bytes
unfolding hex_value
decode_hex [] = some []
decode_hex (c ∷ []) = none
decode_hex (c ∷ d ∷ s) = pair (hex_value c) (hex_value d) (decode_hex s)

abbrev pub is_blank : ℕ → Bool
is_blank c = c == 32 || c == 9 || c == 10 || c == 13

-- `parseHex`
unfoldable pub parse_hex : Bytes → Option Bytes
unfolding decode_hex
parse_hex s =
    let digits = keep (λ c. not (is_blank c)) s in
    if not (length digits % 2 == 0) then none else decode_hex digits

abbrev pub octal : ℕ → Bool
octal c = leb 48 c && leb c 55

-- How much of an escape has been read: nothing, the backslash, or one or two digits of the given value.
pub data Escape : Type 0 where
  outside after_backslash : Escape
  one_digit two_digits : ℕ → Escape

abbrev pub emit : ℕ → Option Bytes → Option Bytes
emit b none = none
emit b (some bs) = some (b ∷ bs)

-- The loop of `parseEscape`, a byte at a time.
unfoldable pub escape_from : Escape → Bytes → Option Bytes
escape_from outside [] = some []
escape_from _ [] = none
escape_from outside (c ∷ s) =
    let plain = emit c (escape_from outside s) in
    let escaped = escape_from after_backslash s in if c == 92 then escaped else plain
escape_from after_backslash (c ∷ s) =
    let slash = emit 92 (escape_from outside s) in
    let digit = escape_from (one_digit (c - 48)) s in
    if c == 92 then slash else if octal c then digit else none
escape_from (one_digit n) (c ∷ s) =
    let digit = escape_from (two_digits (n * 8 + (c - 48))) s in if octal c then digit else none
escape_from (two_digits n) (c ∷ s) =
    let byte = emit (n * 8 + (c - 48)) (escape_from outside s) in
    if not (octal c) || ltb 255 (n * 8 + (c - 48)) then none else byte

-- `parseEscape`
unfoldable pub parse_escape : Bytes → Option Bytes
unfolding escape_from
parse_escape s = escape_from outside s

-- `ParseBytea`: the bytes of the value.
unfoldable pub parse_bytea : Bytes → Option Bytes
unfolding parse_hex parse_escape
parse_bytea [] = parse_escape []
parse_bytea (c ∷ []) = parse_escape (c ∷ [])
parse_bytea (c ∷ d ∷ s) = if c == 92 && (d == 120) then parse_hex s else parse_escape (c ∷ d ∷ s)

-- `EncodeBytea`
unfoldable pub encode_bytea : Bytes → Bytes
unfolding encode_hex
encode_bytea b = 92 ∷ 120 ∷ encode_hex b
