-- ===== src/Wal/Codec.antt =====
-- internal/wal/record.go: the encoding of a record. Its decodeUvarint and uvarintLen are, word for
-- word, those of the value codec.
pub mod RoundTrip
use lightsql.Common.{
  ℕ, zero, suc, ◌+◌, ◌^◌, Bool, true, false, List, [], ◌∷◌, ◌++◌, Option, none, some, ltb, ◌==◌,
  if◌then◌else◌, Bytes, length, Result, ok, err, data_corrupted, ◌>>=◌,
}
use lightsql.Common.Varint.{append_uvarint}
use lightsql.Types.Value.{Value}
use lightsql.Types.Codec.{append_value, decode_value, append_text, take_uvarint, take_text}
use lightsql.Wal.Record.{
  Record, RecordKind, ddl, insert, delete, missing, ddl_record, delete_record, insert_record,
}

-- `maxLen`
abbrev pub max_len : ℕ
max_len = 2 ^ 30

abbrev pub record_kind_number : RecordKind → ℕ
record_kind_number ddl = 0
record_kind_number insert = 1
record_kind_number delete = 2
record_kind_number missing = 3

unfoldable pub append_values : List Value → Bytes
append_values [] = []
append_values (v ∷ vs) = append_value v ++ append_values vs

-- The fields of a record that its kind uses. A record of the last kind has a value: Go panics if not.
unfoldable pub fields : RecordKind → Record → Bytes
unfolding append_values
fields ddl r = append_text r.sql
fields insert r =
    append_text r.table
    ++ (append_uvarint r.row ++ (append_uvarint (length r.vals) ++ append_values r.vals))
fields delete r = append_text r.table ++ append_uvarint r.row
fields missing r =
    append_text r.table
    ++ (append_uvarint r.column ++ elim r.vals [ [] ↦ [] | v ∷ vs ↦ append_value v ])

-- `appendRecord`: what it appends.
unfoldable pub append_record : Record → Bytes
unfolding fields
append_record r = record_kind_number r.kind ∷ fields r.kind r

unfoldable pub record_kind_of : ℕ → Option RecordKind
record_kind_of b =
    if b == 0
    then some ddl
    else if b == 1
    then some insert
    else if b == 2
    then some delete
    else if b == 3
    then some missing
    else none

module _ (parse_jsonb : Bytes → Option Value) where
  -- The loop over `r.Vals`.
  unfoldable pub decode_values : ℕ → Bytes → Result (List Value × Bytes)
  decode_values zero src = ok ([], src)
  decode_values (suc n) src = decode_value parse_jsonb src >>= λ (v : Value × Bytes).
      decode_values n v.1 >>= λ (vs : List Value × Bytes). ok (v.0 ∷ vs.0, vs.1)

  -- The columns of a row, behind its table and row id.
  unfoldable pub decode_row : Bytes → ℕ → Bytes → Result (Record × Bytes)
  unfolding decode_values
  decode_row table row src = take_uvarint src >>= λ (n : ℕ × Bytes).
      if ltb max_len n.0
      then err data_corrupted
      else decode_values n.0 n.1 >>= λ (vs : List Value × Bytes).
          ok (insert_record table row vs.0, vs.1)

  unfoldable pub decode_missing : Bytes → Bytes → Result (Record × Bytes)
  decode_missing table src = take_uvarint src >>= λ (col : ℕ × Bytes).
      if ltb max_len col.0
      then err data_corrupted
      else decode_value parse_jsonb col.1 >>= λ (v : Value × Bytes). ok (
        record {
          kind = missing;
          column = col.0;
          row = 0;
          sql = [];
          table = table;
          vals = v.0 ∷ [];
        },
        v.1,
      )

  -- The fields of a record of the given kind.
  unfoldable pub decode_fields : RecordKind → Bytes → Result (Record × Bytes)
  unfolding decode_row decode_missing
  decode_fields ddl src = take_text src >>= λ (sql : Bytes × Bytes). ok (ddl_record sql.0, sql.1)
  decode_fields insert src = take_text src >>= λ (table : Bytes × Bytes).
      take_uvarint table.1 >>= λ (row : ℕ × Bytes). decode_row table.0 row.0 row.1
  decode_fields delete src = take_text src >>= λ (table : Bytes × Bytes).
      take_uvarint table.1 >>= λ (row : ℕ × Bytes). ok (delete_record table.0 row.0, row.1)
  decode_fields missing src =
      take_text src >>= λ (table : Bytes × Bytes). decode_missing table.0 table.1

  -- `decodeRecord`
  unfoldable pub decode_record : Bytes → Result (Record × Bytes)
  unfolding record_kind_of decode_fields
  decode_record [] = err data_corrupted
  decode_record (b ∷ src) = elim (record_kind_of b) [
    | none ↦ err data_corrupted
    | some k ↦ decode_fields k src
  ]
