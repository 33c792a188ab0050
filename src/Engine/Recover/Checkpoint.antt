-- ===== src/Engine/Recover/Checkpoint.antt =====
-- What recovery makes of the records of a checkpoint (internal/engine/persist.go).
use lightsql.Common.{ℕ, ◌≡◌, Bool, true, false, List, [], ◌∷◌, map, All, Result, ok, err}
use lightsql.Types.Value.{Value}
use lightsql.Wal.Record.{Record, RecordKind, ddl, missing}
use lightsql.Storage.Heap.{Heap}
use lightsql.Wal.Log.{Log}
use lightsql.Engine.Recover.{Schema, Held, Recovering, placed}
use lightsql.Engine.Recover.Rows.{row_of}
use lightsql.Engine.Recover.Records.{Stored}

module _ (sch : Schema) where
  open sch use {Cat, Table, same_table, lookup_qualified, tables, restore_sequences}

  -- The records that change the schema only.
  abbrev pub is_schema : RecordKind → Bool
  is_schema ddl = true
  is_schema missing = true
  is_schema _ = false

  rows_or : (Table → Held) → Result (Recovering sch) → Table → Held
  rows_or other (ok e) = e.rows
  rows_or other (err c) = other

  -- The rows of the heaps.
  Restored : ℕ → Recovering sch → List (Stored sch) → Type 0
  unfolding placed
  Restored boot e ts = All (λ s. map row_of (placed sch boot e s.1).versions ≡ s.2) ts

  -- The rows of each table of a database, with their ids.
  abbrev pub table_rows : List (Table × Heap) → List (Table × Held)
  table_rows hs = map (λ (t, h). (t, map row_of h.versions)) hs

  -- The sequences restored from the heaps of the tables, one after the other.
  abbrev pub resequenced : List (Table × Heap) → Cat → Cat
  resequenced [] cat = cat
  resequenced ((t, h) ∷ hs) cat = resequenced hs (restore_sequences t h cat)
