-- ===== src/Storage/Tests.antt =====
-- Runs of the transaction manager, the heap and transactions, and the theorems at concrete inputs.
use lightsql.Common.{
  ◌+◌, ◌<◌, ◌≤◌, ◌≡◌, ◌≢◌, ◌↔◌, refl, false, Option, none, some, List, [], ◌∷◌, map, arith, length,
  get_elem?, Code, serialization_failure, internal_error,
}
use lightsql.Types.Value.{Value, int}
use lightsql.Wal.Record.{Record, delete_record}
use lightsql.Storage.Txn.{
  TxManager, in_progress, committed, aborted, status_eq, status_of, new_tx_manager, begin, take,
  committed_in, horizon, set_add, set_delete, finish, lowest, commit, abort, id_mod,
}
use lightsql.Storage.Txn.Invariant.{IsWf, Reach, Step, new_tx_manager-IsWf, Reach-IsWf}
use lightsql.Storage.Heap.{
  Version, Heap, new_heap, insert, delete, scan, vacuum, visible, conflicts,
}
use lightsql.Storage.Heap.Rows.{row}
use lightsql.Storage.Heap.Isolation.{Db, Others, OtherStep, scan_stable}
use lightsql.Storage.Heap.Rollback.{without, OwnWrites, rollback_undoes}
use lightsql.Storage.Heap.Vacuum.{vacuum_safe, vacuum_hides, one_version}
use lightsql.Storage.Heap.Conflicts.{delete_conflict}
use lightsql.Storage.Tx
use lightsql.Storage.Tx.{
  World, Tx, Isolation, begin_tx, log, rollback, next_statement, read_committed, repeatable_read,
}
use lightsql.Storage.Tx.Commit.{Outcome, commit_durable}
use lightsql.Storage.Tx.Statements.{TxSteps, TxStep, repeatable_view}

abbrev seven : Value
seven = record { k = int; scale = 0; n = 7; s = [] }

-- Transaction 1 has committed; 2 and 3 are open.
mgr2 : TxManager
mgr2 = (begin (commit 1 (begin new_tx_manager).0)).0

mgr3 : TxManager
mgr3 = (begin mgr2).0

reach3 : Reach new_tx_manager mgr3
unfolding mgr3 mgr2 begin commit finish new_tx_manager
reach3 =
    Reach.more
      (Reach.more (Reach.more (Reach.more Reach.here (Step.begins (omega arith))) (Step.commits 1))
        (Step.begins (omega arith)))
      (Step.begins (omega arith))

mgr3-IsWf : IsWf mgr3
mgr3-IsWf = Reach-IsWf new_tx_manager-IsWf reach3

open2 : mgr3.status 2 ≡ some in_progress
unfolding mgr3 mgr2 begin commit finish new_tx_manager
open2 = refl

open3 : mgr3.status 3 ≡ some in_progress
unfolding mgr3 mgr2 begin commit finish new_tx_manager
open3 = refl

horizon_run : horizon mgr3 ≡ 2
unfolding mgr3 mgr2 begin commit finish new_tx_manager horizon lowest set_add set_delete
horizon_run = refl

-- One row that transaction 1 wrote.
abbrev one_row : Heap
one_row = (insert 1 (seven ∷ []) new_heap).0

abbrev db3 : Db
db3 = record { mgr = mgr3; heap = one_row }

-- Transaction 2 deletes the row, writes another and commits, while 3 reads.
others3 : (d : Db) × Others 3 db3 d
unfolding insert delete
others3 = (
  _,
  Others.more
      (Others.more (Others.more Others.here (OtherStep.deletes 2 0 (omega arith) open2))
        (OtherStep.inserts 2 [] (omega arith) open2))
      (OtherStep.commits 2 (omega arith)),
)

scan_stable_example :
    map row (scan others3.0.mgr (take mgr3) 3 others3.0.heap)
    ≡ map row (scan mgr3 (take mgr3) 3 one_row)
scan_stable_example = scan_stable 3 db3 others3.0 mgr3-IsWf open3 others3.1

scan_run : map row (scan mgr3 (take mgr3) 3 one_row) ≡ (1, seven ∷ []) ∷ []
unfolding mgr3 mgr2 begin commit finish new_tx_manager lowest set_add set_delete scan visible
    committed_in status_of insert new_heap take
scan_run = refl

abbrev two_writes : Heap
two_writes = (delete mgr3 2 0 (insert 2 [] one_row).0).0

rollback_undoes_example :
    (map row (scan (abort 2 mgr3) (take mgr3) 3 two_writes)
      ≡ map row (
          scan
            (abort 2 mgr3)
            (take mgr3)
            3
            (record two_writes { versions = without 2 two_writes.versions })))
    × (map row (scan (abort 2 mgr3) (take mgr3) 3 two_writes)
        ≡ map row (scan (abort 2 mgr3) (take mgr3) 3 one_row))
rollback_undoes_example =
    rollback_undoes mgr3 2 3 (take mgr3) one_row _ open2 open3 (omega arith)
      (OwnWrites.deletes (OwnWrites.inserts OwnWrites.here []) 0)

vacuum_safe_example :
    (scan mgr3 (take mgr3) 3 (vacuum mgr3 1 one_row).0 ≡ scan mgr3 (take mgr3) 3 one_row)
    × (length (vacuum mgr3 1 one_row).0.versions + (vacuum mgr3 1 one_row).1
        ≡ length one_row.versions)
unfolding take
vacuum_safe_example = vacuum_safe mgr3 mgr3 3 1 one_row open3 xmin3
  where
    xmin3 : 1 ≤ (take mgr3).xmin
    xmin3 =
        unfold mgr3 mgr2 begin commit finish new_tx_manager lowest set_add set_delete in omega arith

abbrev deleted_by_2 : Version
deleted_by_2 = record { id = 1; xmin = 1; xmax = 2; vals = seven ∷ [] }

created1 : status_of mgr3 1 ≡ committed
unfolding mgr3 mgr2 begin commit finish new_tx_manager status_of
created1 = refl

horizon_passed : 2 < horizon (commit 2 mgr3)
unfolding mgr3 mgr2 begin commit finish new_tx_manager lowest set_add set_delete horizon
horizon_passed = omega arith

vacuum_hides_example :
    (scan (commit 2 mgr3) (take mgr3) 3 (one_version deleted_by_2) ≡ deleted_by_2 ∷ [])
    × (scan
          (commit 2 mgr3)
          (take mgr3)
          3
          (vacuum (commit 2 mgr3) (horizon (commit 2 mgr3)) (one_version deleted_by_2)).0
        ≡ [])
vacuum_hides_example =
    vacuum_hides mgr3 3 2 deleted_by_2 mgr3-IsWf open3 open2 (omega arith) created1 refl
      horizon_passed

deleted_once : (delete mgr3 2 0 one_row).1 ≡ none
unfolding delete conflicts insert new_heap
deleted_once = refl

at0 : get_elem? one_row.versions 0 ≡ some (record { id = 1; xmin = 1; xmax = 0; vals = seven ∷ [] })
unfolding insert new_heap
at0 = refl

delete_conflict_example :
    (((delete (commit 2 mgr3) 3 0 (delete mgr3 2 0 one_row).0).1 ≡ some serialization_failure)
      ↔ (status_of (commit 2 mgr3) 2 ≢ aborted))
    × ((delete (commit 2 mgr3) 3 0 (delete mgr3 2 0 one_row).0).1 ≡ some serialization_failure
        → (delete (commit 2 mgr3) 3 0 (delete mgr3 2 0 one_row).0).0 ≡ (delete mgr3 2 0 one_row).0)
delete_conflict_example =
    delete_conflict mgr3 (commit 2 mgr3) 2 3 0 one_row _ at0 deleted_once (omega arith)
      (omega arith)

room1 : new_heap.next_row + 1 < id_mod
unfolding new_heap
room1 = omega arith

-- A journal that keeps what it is given, and refuses once it holds two batches.
abbrev keep_two : List (List Record) → List Record → List (List Record) × Option Code
keep_two (a ∷ b ∷ l) recs = (a ∷ b ∷ l, some internal_error)
keep_two l recs = (recs ∷ l, none)

abbrev world0 : World (List (List Record))
world0 = record { mgr = mgr2; journal = some 0; journals = λ _. [] }

abbrev started : World (List (List Record)) × Tx
started = begin_tx repeatable_read false 0 (λ w. w) world0

abbrev tx3 : Tx
tx3 = log (delete_record [] 1) started.1

live3 : tx3.done ≡ false
unfolding log begin_tx
live3 = refl

run3 : started.0.mgr.status tx3.id ≡ some in_progress
unfolding log begin_tx mgr2 begin commit finish new_tx_manager
run3 = refl

commit_durable_example : Outcome keep_two tx3 started.0 (Tx.commit keep_two tx3 started.0)
commit_durable_example = commit_durable keep_two tx3 started.0 live3 run3

mgr2-IsWf : IsWf mgr2
unfolding mgr2
mgr2-IsWf = Reach-IsWf new_tx_manager-IsWf (
    Reach.more (Reach.more (Reach.more Reach.here (Step.begins one_issued)) (Step.commits 1))
      (Step.begins two_issued))
  where
    one_issued : new_tx_manager.next + 1 < id_mod
    one_issued = unfold new_tx_manager in omega arith

    two_issued : (commit 1 (begin new_tx_manager).0).next + 1 < id_mod
    two_issued = unfold begin commit finish new_tx_manager in omega arith

room2 : mgr2.next + 1 < id_mod
unfolding mgr2 begin commit finish new_tx_manager
room2 = omega arith

-- Transaction 2 commits between the calls of Begin and Take, and another one begins later.
abbrev commit_2 : World (List (List Record)) → World (List (List Record))
commit_2 w = record w { mgr = commit 2 w.mgr }

abbrev overtaken : World (List (List Record)) × Tx
overtaken = begin_tx repeatable_read false 0 commit_2 world0

overtaken_room : overtaken.0.mgr.next + 1 < id_mod
unfolding begin_tx mgr2 begin commit finish new_tx_manager
overtaken_room = omega arith

between_calls : Reach (begin mgr2).0 overtaken.0.mgr
unfolding begin_tx
between_calls = Reach.more Reach.here (Step.commits 2)

repeatable_view_example :
    committed_in (begin overtaken.0.mgr).0 (next_statement overtaken.0 overtaken.1).0.snap 2
    ≡ status_eq (status_of overtaken.0.mgr 2) committed
repeatable_view_example =
    repeatable_view keep_two world0 repeatable_read false 0 commit_2 _ (begin overtaken.0.mgr).0 2
      mgr2-IsWf room2 (λ e. cc) between_calls
      (TxSteps.more TxSteps.here (TxStep.statement overtaken.0))
      (Reach.more Reach.here (Step.begins overtaken_room))

abbrev rc3 : Tx
rc3 = (begin_tx read_committed false 0 (λ w. w) world0).1

live_rc : rc3.done ≡ false
unfolding begin_tx
live_rc = refl

sound_rc : rc3.failed ≡ false
unfolding begin_tx
sound_rc = refl

is_rc : rc3.iso ≡ read_committed
unfolding begin_tx
is_rc = refl
