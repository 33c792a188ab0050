-- ===== src/Wal/Record.antt =====
-- internal/wal/record.go: the records of the log. The codec is in Wal/Codec.
use lightsql.Common.{ℕ, ◌%◌, ◌^◌, List, [], ◌∷◌, Bytes}
use lightsql.Types.Value.{Value}

pub data RecordKind : Type 0 where
  ddl insert delete missing : RecordKind

-- A record has all fields whatever its kind, as the Go struct does; those that the kind does not
-- use are zero.
pub record Record : Type 0 where
  pub kind : RecordKind
  pub column : ℕ
  pub row : ℕ
  pub sql : Bytes
  pub table : Bytes
  pub vals : List Value

unfoldable pub ddl_record : Bytes → Record
ddl_record sql = record { kind = ddl; column = 0; row = 0; sql = sql; table = []; vals = [] }

unfoldable pub insert_record : Bytes → ℕ → List Value → Record
insert_record table row vals = record {
  kind = insert;
  column = 0;
  row = row;
  sql = [];
  table = table;
  vals = vals;
}

unfoldable pub delete_record : Bytes → ℕ → Record
delete_record table row = record {
  kind = delete;
  column = 0;
  row = row;
  sql = [];
  table = table;
  vals = [];
}

-- `uint32(column)`
unfoldable pub missing_record : Bytes → ℕ → Value → Record
missing_record table column v = record {
  kind = missing;
  column = column % 2 ^ 32;
  row = 0;
  sql = [];
  table = table;
  vals = v ∷ [];
}
