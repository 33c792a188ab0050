-- ===== src/Wal/Frame.antt =====
-- internal/wal/log.go: a frame of the log, which holds one transaction. The checksum of package
-- hash/crc32 is the parameter `checksum`.
pub mod RoundTrip
pub mod Torn
use lightsql.Common.{
  ℕ, zero, suc, ◌+◌, ◌%◌, ◌^◌, Bool, true, false, ◌||◌, not, List, [], ◌∷◌, ◌++◌, Option, none,
  some, ltb, ◌==◌, if◌then◌else◌, Bytes, length, take, drop, Result, ok, err, data_corrupted, ◌>>=◌,
}
use lightsql.Common.Varint.{append_uvarint, le_bytes, le_word}
use lightsql.Types.Value.{Value}
use lightsql.Types.Codec.{take_uvarint}
use lightsql.Wal.Record.{Record}
use lightsql.Wal.Codec.{max_len, append_record, decode_record}

-- `frameHeader`
abbrev pub frame_header : ℕ
frame_header = 8

unfoldable pub append_records : List Record → Bytes
append_records [] = []
append_records (r ∷ rs) = append_record r ++ append_records rs

unfoldable pub body : List Record → Bytes
unfolding append_records
body recs = append_uvarint (length recs) ++ append_records recs

module _ (checksum : Bytes → ℕ) where
  -- `encode`: the low four bytes of the length and of the checksum, then the body.
  unfoldable pub encode : List Record → Bytes
  encode recs = le_bytes 4 (length (body recs)) ++ (le_bytes 4 (checksum (body recs)) ++ body recs)

module _ (parse_jsonb : Bytes → Option Value) where
  -- The loop over `recs`.
  unfoldable pub decode_records : ℕ → Bytes → Result (List Record × Bytes)
  decode_records zero src = ok ([], src)
  decode_records (suc n) src = decode_record parse_jsonb src >>= λ (r : Record × Bytes).
      decode_records n r.1 >>= λ (rs : List Record × Bytes). ok (r.0 ∷ rs.0, rs.1)

  -- Nothing may follow the last record.
  unfoldable pub exactly : List Record × Bytes → Result (List Record)
  exactly (recs, []) = ok recs
  exactly (recs, b ∷ bs) = err data_corrupted

  unfoldable pub decode_body : Bytes → Result (List Record)
  unfolding decode_records exactly
  decode_body src = take_uvarint src >>= λ (count : ℕ × Bytes).
      if count.0 == 0 || ltb max_len count.0
      then err data_corrupted
      else decode_records count.0 count.1 >>= exactly

module _ (checksum : Bytes → ℕ) (parse_jsonb : Bytes → Option Value) where
  -- What follows the header: `n` and `sum` are its fields, and the length of what is left of the log is
  -- converted to a uint32, as the source does.
  unfoldable pub open_frame : ℕ → ℕ → Bytes → Result (List Record × Bytes)
  open_frame n sum src =
      if ltb max_len n
      then err data_corrupted
      else if ltb (length src % 2 ^ 32) n
      then err data_corrupted
      else if not (checksum (take n src) == sum)
      then err data_corrupted
      else decode_body parse_jsonb (take n src) >>= λ recs. ok (recs, drop n src)

  -- The two words of the header, if there are as many bytes.
  unfoldable pub read_header : Bytes → Result (List Record × Bytes)
  unfolding open_frame
  read_header src = elim (le_word 4 src) [
    | none ↦ err data_corrupted
    | some (n, sums) ↦ elim (le_word 4 sums) [
      | none ↦ err data_corrupted
      | some (sum, rest) ↦ open_frame n sum rest
    ]
  ]

  -- `nextFrame`; no records where the log is exhausted.
  unfoldable pub next_frame : Bytes → Result (List Record × Bytes)
  unfolding read_header
  next_frame [] = ok ([], [])
  next_frame (b ∷ src) = read_header (b ∷ src)
