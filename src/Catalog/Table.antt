-- ===== src/Catalog/Table.antt =====
-- internal/catalog/catalog.go: a table over its heap, and its sequences. `none` is a panic.
pub mod Sound
pub mod Sequence
pub mod Tests
use lightsql.Common.{
  ℕ, ◌+◌, ◌%◌, Bool, true, false, ◌&&◌, List, [], ◌∷◌, Option, none, some, ◌==◌, ltb, if◌then◌else◌,
  map, Bytes, length, get_elem?, Code, Result, ok, err, data_corrupted,
}
use lightsql.Common.Int.{ℤ, pos, ◌+ℤ◌, ltb_ℤ, ℤ_eq}
use lightsql.Types.Value
use lightsql.Types.Value.{Value, kind_eq}
use lightsql.Types.Word.{word_mod, word_of, int_of}
use lightsql.Wal.Record.{insert_record, delete_record}
use lightsql.Storage.Txn.{TxManager}
use lightsql.Storage.Heap
use lightsql.Storage.Heap.{Heap, Version}
use lightsql.Storage.Tx
use lightsql.Storage.Tx.{Tx}
use lightsql.Exec.Eval.{Row}
use lightsql.Catalog.Row.{Column, check_row}

-- `Table`, with its qualified name, and without what other modules of the model take apart. The map of the
-- sequences gives zero for a column without an entry.
pub record Table : Type 0 where
  pub name : Bytes
  pub columns : List Column
  pub heap : Heap
  pub next_value : ℕ → ℤ

abbrev pub Changed : Type 0
Changed = Option (Result (Table × Tx))

-- The end of Insert, on the row that checkRow gives.
abbrev pub inserted : Tx → Table → Option (Result Row) → Changed
inserted tx t (some (ok row)) =
    let (heap, id) = Heap.insert tx.id row t.heap in
    some (ok (record t { heap = heap }, Tx.log (insert_record t.name id row) tx))
inserted tx t (some (err c)) = some (err c)
inserted tx t none = none

-- `Insert`
unfoldable pub insert_row : Tx → Row → Table → Changed
unfolding check_row
insert_row tx row t = inserted tx t (check_row t.columns row)

-- What Update does once the old version is marked.
abbrev pub replaced : Tx → ℕ → Row → Table → Heap × Option Code → Changed
replaced tx old_id row t (heap, some c) = some (err c)
replaced tx old_id row t (heap, none) =
    let (heap', id) = Heap.insert tx.id row heap in
    some (
      ok (
        record t { heap = heap' },
        Tx.log (insert_record t.name id row) (Tx.log (delete_record t.name old_id) tx),
      ))

abbrev pub updated : TxManager → Tx → ℕ → ℕ → Table → Option (Result Row) → Changed
updated m tx i old_id t (some (ok row)) = replaced tx old_id row t (Heap.delete m tx.id i t.heap)
updated m tx i old_id t (some (err c)) = some (err c)
updated m tx i old_id t none = none

-- `Update` of the version at an index of the heap.
unfoldable pub update_row : TxManager → Tx → ℕ → Version → Row → Table → Changed
unfolding check_row
update_row m tx i old row t = updated m tx i old.id t (check_row t.columns row)

abbrev pub removed : Tx → ℕ → Table → Heap × Option Code → Result (Table × Tx)
removed tx id t (heap, some c) = err c
removed tx id t (heap, none) = ok (record t { heap = heap }, Tx.log (delete_record t.name id) tx)

-- `Delete`
unfoldable pub delete_row : TxManager → Tx → ℕ → Version → Table → Result (Table × Tx)
delete_row m tx i v t = removed tx v.id t (Heap.delete m tx.id i t.heap)

-- `Load`
unfoldable pub load_row : Tx → ℕ → Row → Table → Table
load_row tx id row t = record t { heap = Heap.load tx.id id row t.heap }

-- A row at the width of the columns, with their missing values.
unfoldable pub pad : List Column → Row → Row
pad [] row = []
pad (col ∷ cols) [] = col.missing ∷ pad cols []
pad (col ∷ cols) (v ∷ row) = v ∷ pad cols row

-- `Values`
unfoldable pub values : List Column → Version → Row
unfolding pad
values cols v = if length v.vals == length cols then v.vals else pad cols v.vals

-- `Scan` and `Rows`
unfoldable pub rows : TxManager → Tx → Table → List Row
unfolding values
rows m tx t = map (values t.columns) (Heap.scan m tx.snap tx.id t.heap)

-- The write to a column's missing value; `none` is an ordinal out of range.
unfoldable pub missing_at : ℕ → Value → List Column → Option (List Column)
missing_at i v [] = none
missing_at ℕ.zero v (col ∷ cols) = some (record col { missing = v } ∷ cols)
missing_at (ℕ.suc i) v (col ∷ cols) = elim (missing_at i v cols) [
  | none ↦ none
  | some rest ↦ some (col ∷ rest)
]

-- `SetMissing`
unfoldable pub set_missing : ℕ → Value → Table → Result Table
unfolding missing_at
set_missing i v t = elim (missing_at i v t.columns) [
  | none ↦ err data_corrupted
  | some cols ↦ ok (record t { columns = cols })
]

-- An int64 sum with one.
abbrev pub next_int : ℤ → ℤ
next_int n = int_of ((word_of n + 1) % word_mod)

-- The largest integer of a column that is above `high`. Rows are as wide as the table.
abbrev pub raised : ℤ → Option Value → ℤ
raised high none = high
raised high (some v) = if kind_eq v.k Value.int && ltb_ℤ high (int_of v.n) then int_of v.n else high

unfoldable pub highest : ℕ → List Row → ℤ → ℤ
highest ord [] high = high
highest ord (row ∷ rest) high = highest ord rest (raised high (get_elem? row ord))

-- The sequence of a serial column, past what the rows hold.
unfoldable pub restored : ℕ → List Row → (ℕ → ℤ) → ℕ → ℤ
unfolding highest
restored ord seen next i =
    let high = highest ord seen (pos 0) in
    if (i == ord) && ltb_ℤ (pos 0) high then next_int high else next i

-- The loop of RestoreSequences, from the column `ord` on.
unfoldable pub restore_from : ℕ → List Column → List Row → (ℕ → ℤ) → ℕ → ℤ
unfolding restored
restore_from ord [] seen next = next
restore_from ord (col ∷ cols) seen next =
    restore_from (ord + 1) cols seen (if col.serial then restored ord seen next else next)

-- `RestoreSequences`
unfoldable pub restore_sequences : TxManager → Tx → Table → Table
unfolding restore_from rows
restore_sequences m tx t = record t {
  next_value = restore_from 0 t.columns (rows m tx t) t.next_value;
}

-- `NextSerial`
unfoldable pub next_serial : ℕ → Table → Table × ℤ
next_serial ord t =
    let n = if ℤ_eq (t.next_value ord) (pos 0) then pos 1 else t.next_value ord in
    (record t { next_value = λ i. if i == ord then next_int n else t.next_value i }, n)
