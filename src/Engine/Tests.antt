-- ===== src/Engine/Tests.antt =====
-- Recovery at concrete inputs: one table, called t, which the first statement makes.
use lightsql.Common.{
  ℕ, suc, true, false, ◌&&◌, List, [], ◌∷◌, map, ◌==◌, ltb, bytes_eq, if◌then◌else◌, bytes, ok, err,
  undefined_table,
}
use lightsql.Wal.Record.{Record, ddl_record, insert_record}
use lightsql.Wal.Log.{Log}
use lightsql.Wal.Checkpoint.{write_checkpoint}
use lightsql.Wal.Tests.{sum, answer}
use lightsql.Engine.Recover.{Schema, checkpoint_records, Recovering}
use lightsql.Engine.Recover.Records.{Stored, named_rows}

-- The catalog counts the statements.
abbrev one_table : Schema
one_table = record {
  Cat = ℕ;
  Table = ℕ;
  same_table = λ t u. t == u;
  new_catalog = 0;
  exec_batch = λ sql n. ok (suc n);
  lookup_qualified =
      λ name n. if bytes_eq name (bytes "t") && ltb 0 n then ok 7 else err undefined_table;
  set_missing = λ t col v n. ok n;
  tables = λ n. 7 ∷ [];
  restore_sequences = λ t h n. n;
}

abbrev made : List Record
made = ddl_record (bytes "c") ∷ []

abbrev one_row : List (Stored one_table)
one_row = (bytes "t", 7, (1, answer ∷ []) ∷ []) ∷ []

abbrev after_made : Recovering one_table
after_made = record { cat = 1; rows = λ t. []; applied = 1; schema = made }

abbrev recs : List Record
recs = ddl_record (bytes "c") ∷ insert_record (bytes "t") 1 (answer ∷ []) ∷ []

abbrev compacted : Log
compacted = record {
  file = write_checkpoint sum (checkpoint_records made (map (named_rows one_table) one_row));
  fsync = true;
  has_file = true;
  replayed = false;
  dirty = false;
}
