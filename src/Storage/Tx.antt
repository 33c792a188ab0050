-- ===== src/Storage/Tx.antt =====
-- internal/storage/tx.go and journal.go: transactions, their isolation levels, and the records that
-- they write to the journal when they commit.
pub mod Commit
pub mod Statements
use lightsql.Common.{
  ℕ, Bool, true, false, ◌||◌, ◌&&◌, not, Option, none, some, List, [], ◌∷◌, ◌++◌, map, ◌==◌,
  if◌then◌else◌, keep, Bytes, bytes_eq, Code, invalid_transaction_state, in_failed_transaction,
  read_only_sql_transaction,
}
use lightsql.Wal.Record.{Record}
use lightsql.Storage.Txn.{TxManager, Snapshot, take}
use lightsql.Storage.Txn

pub data Isolation : Type 0 where
  read_committed repeatable_read serializable : Isolation

-- The manager and the journals that exist. A Journal is an interface value: here it is a number,
-- and `journals` gives the state of the journal behind each. `journal` is the field of TxManager.
pub record World (J : Type 0) : Type 0 where
  pub mgr : TxManager
  pub journal : Option ℕ
  pub journals : ℕ → J

pub record Tx : Type 0 where
  pub id : ℕ
  pub iso : Isolation
  pub read_only : Bool
  pub snap : Snapshot
  pub failed : Bool
  pub done : Bool
  pub journal : Option ℕ
  pub pending : List Record
  pub started : ℕ

-- `SetJournal`
unfoldable pub set_journal : {J : Type 0} → Option ℕ → World J → World J
set_journal j w = record w { journal = j }

-- `BeginTx`. The clock is an argument, and `others`, what other connections do between the call of Begin and
-- those of journalOf and Take, which lock the manager each.
unfoldable pub begin_tx :
    {J : Type 0} → Isolation → Bool → ℕ → (World J → World J) → World J → World J × Tx
begin_tx iso read_only now others w =
    let (m, id) = Txn.begin w.mgr in
    let w' = others (record w { mgr = m }) in
    (
      w',
      record {
        id = id;
        iso = iso;
        read_only = read_only;
        snap = take w'.mgr;
        failed = false;
        done = false;
        journal = w'.journal;
        pending = [];
        started = now;
      },
    )

-- `Tx.NextStatement`
unfoldable pub next_statement : {J : Type 0} → World J → Tx → Tx × Option Code
next_statement w t =
    if t.done
    then (t, some invalid_transaction_state)
    else if t.failed
    then (t, some in_failed_transaction)
    else (elim t.iso [ read_committed ↦ record t { snap = take w.mgr } | _ ↦ t ], none)

-- `Tx.Fail`
unfoldable pub fail : Tx → Tx
fail t = record t { failed = true }

-- `Tx.CheckWritable`
unfoldable pub check_writable : Tx → Option Code
check_writable t = if t.read_only then some read_only_sql_transaction else none

-- `Tx.Log`
unfoldable pub log : Record → Tx → Tx
log rec t = elim t.journal [ none ↦ t | some j ↦ record t { pending = t.pending ++ rec ∷ [] } ]

-- `Tx.RenameLogged`
unfoldable pub rename_logged : Bytes → Bytes → Tx → Tx
rename_logged from to t = record t {
  pending =
      map (λ (r : Record). if bytes_eq r.table from then record r { table = to } else r) t.pending;
}

-- `slices.Contains`
unfoldable pub names_contain : List Bytes → Bytes → Bool
names_contain [] n = false
names_contain (x ∷ xs) n = bytes_eq x n || names_contain xs n

-- `Tx.ForgetLogged`
unfoldable pub forget_logged : List Bytes → Tx → Tx
forget_logged names t = record t {
  pending = keep (λ (r : Record). not (names_contain names r.table)) t.pending;
}

-- The end of `Commit`, on the error that `flush` returned.
end_commit : {J : Type 0} → ℕ → Tx → World J → Option Code → Tx × World J × Option Code
end_commit id t w (some c) =
    (record t { done = true }, record w { mgr = Txn.abort id w.mgr }, some c)
end_commit id t w none = (record t { done = true }, record w { mgr = Txn.commit id w.mgr }, none)

-- What `Journal.Write` does to the journal behind the interface.
module _ {J : Type 0} (write : J → List Record → J × Option Code) where
  unfoldable pub write_to : ℕ → List Record → World J → World J × Option Code
  write_to j recs w =
      let (s, e) = write (w.journals j) recs in
      (record w { journals = λ i. if i == j then s else w.journals i }, e)

  -- `Tx.LogNow`
  unfoldable pub log_now : List Record → Tx → World J → World J × Option Code
  unfolding write_to
  log_now [] t w = (w, none)
  log_now (r ∷ rs) t w = elim t.journal [ none ↦ (w, none) | some j ↦ write_to j (r ∷ rs) w ]

  -- `Tx.flush`
  flush_records : Option ℕ → List Record → World J → World J × Option Code
  unfolding write_to
  flush_records j [] w = (w, none)
  flush_records none (r ∷ rs) w = (w, none)
  flush_records (some j) (r ∷ rs) w = write_to j (r ∷ rs) w

  unfoldable pub flush : Tx → World J → Tx × World J × Option Code
  unfolding flush_records
  flush t w =
      let (w', e) = flush_records t.journal t.pending w in
      (elim t.journal [ none ↦ t | some j ↦ record t { pending = [] } ], w', e)

  -- `Tx.Commit`
  unfoldable pub commit : Tx → World J → Tx × World J × Option Code
  unfolding flush end_commit
  commit t w =
      if t.done
      then (t, w, some invalid_transaction_state)
      else if t.failed
      then (
        record t { done = true },
        record w { mgr = Txn.abort t.id w.mgr },
        some in_failed_transaction,
      )
      else let (t', w', e) = flush t w in end_commit t.id t' w' e

-- `Tx.Rollback`
unfoldable pub rollback : {J : Type 0} → Tx → World J → Tx × World J
rollback t w =
    if t.done
    then (t, w)
    else (record t { done = true; pending = [] }, record w { mgr = Txn.abort t.id w.mgr })
