-- ===== src/Wal/Codec/RoundTrip.antt =====
-- Encoding a record and decoding it again (internal/wal/record.go).
use native.Mathlib.Omega.{arith}
use lightsql.Common.{
  ℕ, ◌%◌, ◌^◌, ◌≤◌, ◌<◌, false, List, [], ◌∷◌, ◌++◌, Option, some, ltb, ◌≡◌, refl, ap, ◌∙◌, All,
  append_assoc, Bytes, length, ok,
}
use lightsql.Common.Varint.{append_uvarint}
use lightsql.Types.Value.{Value}
use lightsql.Types.Codec.{append_value, append_text, take_uvarint, take_text}
use lightsql.Types.Codec.RoundTrip.{
  IsStored, decode_value-append_value, take_uvarint-append_uvarint, take_text-append_text,
}
use lightsql.Wal.Record.{
  Record, RecordKind, ddl, insert, delete, missing, ddl_record, delete_record, insert_record,
  missing_record,
}
use lightsql.Wal.Codec.{
  max_len, record_kind_number, append_values, fields, append_record, record_kind_of, decode_values,
  decode_row, decode_missing, decode_fields, decode_record,
}

record_kind_of-record_kind_number :
    (k : RecordKind) → record_kind_of (record_kind_number k) ≡ some k
unfolding record_kind_of
record_kind_of-record_kind_number ddl = refl
record_kind_of-record_kind_number insert = refl
record_kind_of-record_kind_number delete = refl
record_kind_of-record_kind_number missing = refl

within : (n : ℕ) → n ≤ 2 ^ 30 → ltb max_len n ≡ false
within n h = ground arith

-- The records that DDLRecord, InsertRecord, DeleteRecord and MissingRecord make, within the sizes that
-- a log may hold.
pub data IsLoggable (parse_jsonb : Bytes → Option Value) : Record → Type 0 where
  is_ddl : (sql : Bytes) → length sql ≤ 2 ^ 30 → IsLoggable parse_jsonb (ddl_record sql)
  is_insert :
      (table : Bytes) (row : ℕ) (vals : List Value)
      → length table ≤ 2 ^ 30
      → row < 2 ^ 64
      → length vals ≤ 2 ^ 30
      → All (IsStored parse_jsonb) vals
      → IsLoggable parse_jsonb (insert_record table row vals)
  is_delete :
      (table : Bytes) (row : ℕ)
      → length table ≤ 2 ^ 30
      → row < 2 ^ 64
      → IsLoggable parse_jsonb (delete_record table row)
  is_missing :
      (table : Bytes) (column : ℕ) (v : Value)
      → length table ≤ 2 ^ 30
      → column ≤ 2 ^ 30
      → IsStored parse_jsonb v
      → IsLoggable parse_jsonb (missing_record table column v)

-- A field is read back in front of the others.
text_first :
    (t more rest : Bytes)
    → length t ≤ 2 ^ 30
    → take_text (append_text t ++ more ++ rest) ≡ ok (t, more ++ rest)
text_first t more rest h =
    ap take_text (append_assoc (append_text t) more rest) ∙ take_text-append_text t (more ++ rest) h

pub number_first :
    (n : ℕ) (more rest : Bytes)
    → n < 2 ^ 64
    → take_uvarint (append_uvarint n ++ more ++ rest) ≡ ok (n, more ++ rest)
number_first n more rest h =
    ap take_uvarint (append_assoc (append_uvarint n) more rest)
    ∙ take_uvarint-append_uvarint n (more ++ rest) h

module _ (parse_jsonb : Bytes → Option Value) where
  decode_values-append_values :
      (vs : List Value) (rest : Bytes)
      → All (IsStored parse_jsonb) vs
      → decode_values parse_jsonb (length vs) (append_values vs ++ rest) ≡ ok (vs, rest)
  unfolding decode_values append_values
  decode_values-append_values [] rest h = refl
  decode_values-append_values (v ∷ vs) rest h =
      rw (append_assoc (append_value v) (append_values vs) rest) (
        rw (decode_value-append_value parse_jsonb v (append_values vs ++ rest) h.0)
          (rw (decode_values-append_values vs rest h.1) refl))

  decode_record-kind :
      (k : RecordKind) (src : Bytes)
      → decode_record parse_jsonb (record_kind_number k ∷ src) ≡ decode_fields parse_jsonb k src
  unfolding decode_record
  decode_record-kind k src = rw (decode_record, record_kind_of-record_kind_number k) refl

  decode_row-append_values :
      (table : Bytes) (row : ℕ) (vs : List Value) (rest : Bytes)
      → length vs ≤ 2 ^ 30
      → All (IsStored parse_jsonb) vs
      → decode_row parse_jsonb table row (append_uvarint (length vs) ++ append_values vs ++ rest)
        ≡ ok (insert_record table row vs, rest)
  unfolding decode_row
  decode_row-append_values table row vs rest h hv =
      rw (number_first (length vs) (append_values vs) rest (omega arith))
        (rw (within (length vs) h, decode_values-append_values vs rest hv) refl)

  insert_back :
      (table : Bytes) (row : ℕ) (vs : List Value) (rest : Bytes)
      → length table ≤ 2 ^ 30
      → row < 2 ^ 64
      → length vs ≤ 2 ^ 30
      → All (IsStored parse_jsonb) vs
      → decode_fields parse_jsonb insert (fields insert (insert_record table row vs) ++ rest)
        ≡ ok (insert_record table row vs, rest)
  unfolding decode_fields fields insert_record
  insert_back table row vs rest ht hr hl hv =
      let columns = append_uvarint (length vs) ++ append_values vs in
      rw (text_first table (append_uvarint row ++ columns) rest ht)
        (rw (number_first row columns rest hr) (decode_row-append_values table row vs rest hl hv))

  delete_back :
      (table : Bytes) (row : ℕ) (rest : Bytes)
      → length table ≤ 2 ^ 30
      → row < 2 ^ 64
      → decode_fields parse_jsonb delete (fields delete (delete_record table row) ++ rest)
        ≡ ok (delete_record table row, rest)
  unfolding decode_fields fields delete_record
  delete_back table row rest ht hr =
      rw (text_first table (append_uvarint row) rest ht)
        (rw (take_uvarint-append_uvarint row rest hr) refl)

  missing_back :
      (table : Bytes) (column : ℕ) (v : Value) (rest : Bytes)
      → length table ≤ 2 ^ 30
      → column ≤ 2 ^ 30
      → IsStored parse_jsonb v
      → decode_fields parse_jsonb missing (fields missing (missing_record table column v) ++ rest)
        ≡ ok (missing_record table column v, rest)
  unfolding decode_fields fields missing_record
  missing_back table column v rest ht hc hv =
      let word : column % 2 ^ 32 ≡ column = omega arith in
      rw word (
        rw (text_first table (append_uvarint column ++ append_value v) rest ht) (
          rw (decode_missing, number_first column (append_value v) rest (omega arith))
            (rw (within column hc, decode_value-append_value parse_jsonb v rest hv) refl)))

  fields_back :
      (r : Record) (rest : Bytes)
      → IsLoggable parse_jsonb r
      → decode_fields parse_jsonb r.kind (fields r.kind r ++ rest) ≡ ok (r, rest)
  fields_back r rest (is_ddl sql h) =
      unfold decode_fields fields ddl_record in rw (take_text-append_text sql rest h) refl
  fields_back r rest (is_insert table row vs ht hr hl hv) =
      unfold insert_record in insert_back table row vs rest ht hr hl hv
  fields_back r rest (is_delete table row ht hr) =
      unfold delete_record in delete_back table row rest ht hr
  fields_back r rest (is_missing table column v ht hc hv) =
      unfold missing_record in missing_back table column v rest ht hc hv

  -- A record that was written is read back, and what follows it is left.
  pub decode_record-append_record :
      (r : Record) (rest : Bytes)
      → IsLoggable parse_jsonb r
      → decode_record parse_jsonb (append_record r ++ rest) ≡ ok (r, rest)
  unfolding append_record
  decode_record-append_record r rest h =
      decode_record-kind r.kind (fields r.kind r ++ rest) ∙ fields_back r rest h
