-- ===== src/Engine/Recover.antt =====
-- internal/engine/persist.go: how a restart rebuilds the database from the log. What the catalog does is an interface;
-- rows go to the heap of their table by the heap's own `load`.
pub mod Rows
pub mod Records
pub mod Checkpoint
use lightsql.Common.{
  ℕ, suc, ◌+◌, Bool, true, false, List, [], ◌∷◌, ◌++◌, map, Option, none, some, ◌==◌, leb,
  if◌then◌else◌, Bytes, Result, ok, err, ◌>>=◌, data_corrupted, internal_error,
}
use lightsql.Types.Value.{Value}
use lightsql.Wal.Record.{Record, RecordKind, ddl, insert, delete, missing, insert_record}
use lightsql.Wal.Log.{Log, replay}
use lightsql.Storage.Heap.{Heap, Version, load, new_heap}

-- What recovery asks of the catalog and of the statements that it runs. A pointer to a table is a `Table`.
pub record Schema : Type 1 where
  pub Cat : Type 0
  pub Table : Type 0
  pub same_table : Table → Table → Bool
  pub new_catalog : Cat
  -- `ExecBatch` of a logged statement
  pub exec_batch : Bytes → Cat → Result Cat
  pub lookup_qualified : Bytes → Cat → Result Table
  pub set_missing : Table → ℕ → Value → Cat → Result Cat
  pub tables : Cat → List Table
  pub restore_sequences : Table → Heap → Cat → Cat

-- The rows of a table, a Go map from ids.
abbrev pub Held : Type 0
Held = List (ℕ × List Value)

unfoldable pub put : ℕ → List Value → Held → Held
put id vals [] = (id, vals) ∷ []
put id vals ((i, v) ∷ held) =
    let rest = put id vals held in if i == id then (id, vals) ∷ held else (i, v) ∷ rest

unfoldable pub forget : ℕ → Held → Held
forget id [] = []
forget id ((i, v) ∷ held) = let rest = forget id held in if i == id then rest else (i, v) ∷ rest

-- `slices.Sorted` of the ids, with their rows.
unfoldable pub place_in : ℕ × List Value → Held → Held
place_in (id, vals) [] = (id, vals) ∷ []
place_in (id, vals) ((i, v) ∷ held) =
    let rest = place_in (id, vals) held in
    if leb id i then (id, vals) ∷ (i, v) ∷ held else (i, v) ∷ rest

unfoldable pub by_id : Held → Held
unfolding place_in
by_id [] = []
by_id (x ∷ held) = place_in x (by_id held)

-- The loads of one table, by the transaction `boot`.
unfoldable pub load_all : ℕ → Held → Heap → Heap
load_all boot [] h = h
load_all boot ((id, vals) ∷ held) h = load_all boot held (load boot id vals h)

-- The records of a checkpoint: the schema, then each table's rows, as a snapshot shows them, with its name.
unfoldable pub table_records : Bytes → List (ℕ × List Value) → List Record
table_records name rows = map (λ (id, vals). insert_record name id vals) rows

unfoldable pub all_records : List (Bytes × Held) → List Record
unfolding table_records
all_records [] = []
all_records ((name, rows) ∷ ts) = table_records name rows ++ all_records ts

unfoldable pub checkpoint_records : List Record → List (Bytes × Held) → List Record
unfolding all_records
checkpoint_records schema ts = schema ++ all_records ts

module _ (sch : Schema) where
  open sch use {
    Cat, Table, same_table, new_catalog, exec_batch, lookup_qualified, set_missing, tables,
    restore_sequences,
  }

  -- The engine while it recovers, and the rows that wait to be placed.
  pub record Recovering : Type 0 where
    pub cat : Cat
    pub rows : Table → Held
    pub applied : ℕ
    pub schema : List Record

  unfoldable pub set_rows : Table → (Held → Held) → (Table → Held) → Table → Held
  set_rows t f rows u = if same_table t u then f (rows u) else rows u

  -- A record that names a table: where the replay stops early, an unknown table is passed over.
  unfoldable pub with_table :
      Option ℕ → Record → Recovering → (Table → Result Recovering) → Result Recovering
  with_table stop rec e f = elim (lookup_qualified rec.table e.cat) [
    | ok t ↦ f t
    | err c ↦ elim stop [ none ↦ err c | some n ↦ ok e ]
  ]

  abbrev pub remembered : Record → Recovering → Result Cat → Result Recovering
  remembered rec e (err c) = err c
  remembered rec e (ok cat) = ok (record e { cat = cat; schema = e.schema ++ rec ∷ [] })

  -- Whether the schema statements that were asked for have been applied.
  abbrev stopped : Option ℕ → Recovering → Bool
  stopped none e = false
  stopped (some n) e = leb n e.applied

  -- The error of a statement that fails again.
  abbrev pub replaying : Result Cat → Result Cat
  replaying (ok cat) = ok cat
  replaying (err c) = err data_corrupted

  abbrev pub counted : Recovering → Recovering
  counted e = record e { applied = e.applied + 1 }

  -- The value of a Missing record. The decoder gives it one; the code reads it without a test.
  abbrev pub missing_value : Record → Recovering → List Value → Table → Result Recovering
  missing_value rec e [] t = err internal_error
  missing_value rec e (v ∷ vs) t = remembered rec e (set_missing t rec.column v e.cat)

  -- `apply`
  unfoldable pub apply_kind : RecordKind → Option ℕ → Record → Recovering → Result Recovering
  unfolding with_table set_rows put forget
  apply_kind ddl stop rec e =
      let run = remembered rec (counted e) (replaying (exec_batch rec.sql e.cat)) in
      if stopped stop e then ok e else run
  apply_kind missing stop rec e = with_table stop rec e (missing_value rec e rec.vals)
  apply_kind insert stop rec e =
      with_table stop rec e λ t. ok (record e { rows = set_rows t (put rec.row rec.vals) e.rows })
  apply_kind delete stop rec e =
      with_table stop rec e λ t. ok (record e { rows = set_rows t (forget rec.row) e.rows })

  unfoldable pub apply : Option ℕ → Record → Recovering → Result Recovering
  unfolding apply_kind
  apply stop rec e = apply_kind rec.kind stop rec e

  -- The function that `recover` hands to Replay.
  unfoldable pub apply_all : Option ℕ → Recovering → List Record → Result Recovering
  unfolding apply
  apply_all stop e [] = ok e
  apply_all stop e (rec ∷ recs) = apply stop rec e >>= λ e'. apply_all stop e' recs

  abbrev pub fresh : Recovering
  fresh = record { cat = new_catalog; rows = λ t. []; applied = 0; schema = [] }

  -- The heap of a table after the second loop of `recover`.
  unfoldable pub placed : ℕ → Recovering → Table → Heap
  unfolding by_id load_all
  placed boot e t = load_all boot (by_id (e.rows t)) new_heap

  abbrev pub restore_all : ℕ → Recovering → List Table → Cat → Cat
  restore_all boot e [] cat = cat
  restore_all boot e (t ∷ ts) cat =
      restore_all boot e ts (restore_sequences t (placed boot e t) cat)

  -- The database: the catalog, the heaps of its tables, and the schema history.
  pub record Recovered : Type 0 where
    pub cat : Cat
    pub heaps : List (Table × Heap)
    pub schema : List Record

  unfoldable pub place_all : ℕ → Recovering → Recovered
  unfolding placed
  place_all boot e = record {
    cat = restore_all boot e (tables e.cat) e.cat;
    heaps = map (λ t. (t, placed boot e t)) (tables e.cat);
    schema = e.schema;
  }

  -- `recover`, over what Replay reads of the log.
  unfoldable pub recover :
      (checksum : Bytes → ℕ) (parse_jsonb : Bytes → Option Value) (stop : Option ℕ) (boot : ℕ)
      → Log
      → Log × Result Recovered
  unfolding apply_all place_all
  recover checksum parse_jsonb stop boot l =
      let (l', r) = replay checksum parse_jsonb (apply_all stop) fresh l in
      (l', r >>= λ (e : Recovering). ok (place_all boot e))
