-- ===== src/Storage/Tx/Statements.antt =====
-- What the statements of a transaction see at each isolation level, and that a transaction which
-- has ended does nothing more.
use lightsql.Common.{
  ℕ, ◌+◌, ◌<◌, ◌≡◌, ◌≢◌, refl, sym, ◌∙◌, Bool, true, false, Option, none, some, List, arith, Code,
  invalid_transaction_state, Bytes,
}
use lightsql.Wal.Record.{Record}
use lightsql.Storage.Txn
use lightsql.Storage.Txn.{TxManager, committed, status_eq, status_of, committed_in, take, id_mod}
use lightsql.Storage.Txn.Invariant.{IsWf, Reach, begin-IsWf, Reach-IsWf}
use lightsql.Storage.Txn.Snapshots.{committed_in-take, committed_in_stable}
use lightsql.Storage.Tx.{
  World, Tx, Isolation, read_committed, begin_tx, next_statement, fail, log, rename_logged,
  forget_logged, commit, rollback, end_commit, flush,
}

module _ {J : Type 0} (write : J → List Record → J × Option Code) where
  end_commit_done :
      (id : ℕ) (t : Tx) (w : World J) (e : Option Code) → (end_commit id t w e).0.done ≡ true
  unfolding end_commit
  end_commit_done id t w none = refl
  end_commit_done id t w (some c) = refl

  commit_done : (t : Tx) (w : World J) → (commit write t w).0.done ≡ true
  unfolding commit
  commit_done t w =
      ground
        (arith, end_commit_done t.id (flush write t w).0 (flush write t w).1 (flush write t w).2)

  -- After a commit, whatever came of it, a rollback is harmless, a second commit is refused, and
  -- so is another statement: none of them changes the transaction or the database.
  pub after_commit :
      (t : Tx) (w : World J)
      → let (t', w', e) = commit write t w in
        (rollback t' w' ≡ (t', w'))
        × (commit write t' w' ≡ (t', w', some invalid_transaction_state))
        × (next_statement w' t' ≡ (t', some invalid_transaction_state))
  unfolding rollback next_statement
  after_commit t w = (
    rw (commit_done t w),
    ended (commit write t w).0 (commit write t w).1 (commit_done t w),
    rw (commit_done t w),
  )
    where
      ended :
          (u : Tx) (v : World J)
          → u.done ≡ true
          → commit write u v ≡ (u, v, some invalid_transaction_state)
      ended u v h = unfold commit in rw h

  -- The calls on a transaction, with the database at the time of each.
  pub data TxStep (t : Tx) : Tx → Type 0 where
    statement : (w : World J) → TxStep t (next_statement w t).0
    fails : TxStep t (fail t)
    logs : (r : Record) → TxStep t (log r t)
    renames : (from to : Bytes) → TxStep t (rename_logged from to t)
    forgets : (names : List Bytes) → TxStep t (forget_logged names t)
    commits : (w : World J) → TxStep t (commit write t w).0
    rolls_back : (w : World J) → TxStep t (rollback t w).0

  pub data TxSteps (t : Tx) : Tx → Type 0 where
    here : TxSteps t t
    more : {t' t'' : Tx} → TxSteps t t' → TxStep t' t'' → TxSteps t t''

  record SameView (t t' : Tx) : Type 0 where
    snap : t'.snap ≡ t.snap
    iso : t'.iso ≡ t.iso

  commit-SameView : (t : Tx) (w : World J) → SameView t (commit write t w).0
  unfolding commit flush end_commit
  commit-SameView t w = record { snap = ground arith; iso = ground arith }

  TxStep-SameView : {t t' : Tx} → t.iso ≢ read_committed → TxStep t t' → SameView t t'
  unfolding next_statement fail log rename_logged forget_logged rollback
  TxStep-SameView {t} ne (statement w) = record { snap = ground arith; iso = ground arith }
  TxStep-SameView {t} ne fails = record { snap = refl; iso = refl }
  TxStep-SameView {t} ne (logs r) = record { snap = ground arith; iso = ground arith }
  TxStep-SameView {t} ne (renames from to) = record { snap = refl; iso = refl }
  TxStep-SameView {t} ne (forgets names) = record { snap = refl; iso = refl }
  TxStep-SameView {t} ne (commits w) = commit-SameView t w
  TxStep-SameView {t} ne (rolls_back w) = record { snap = ground arith; iso = ground arith }

  TxSteps-SameView : {t t' : Tx} → t.iso ≢ read_committed → TxSteps t t' → SameView t t'
  TxSteps-SameView ne here = record { snap = refl; iso = refl }
  TxSteps-SameView {t} ne (more {t' = u} r st) =
      let a : SameView t u = TxSteps-SameView ne r in
      let b = TxStep-SameView (λ e. ne (sym a.iso ∙ e)) st in
      record { snap = b.snap ∙ a.snap; iso = b.iso ∙ a.iso }

  -- Above READ COMMITTED a transaction sees, in each of its statements and whatever the other
  -- transactions do meanwhile and in BeginTx between its calls of Begin and Take, exactly those that had
  -- committed when BeginTx took its snapshot.
  pub repeatable_view :
      (w : World J) (iso : Isolation) (read_only : Bool) (now : ℕ) (others : World J → World J)
      (t' : Tx) (m : TxManager) (id : ℕ)
      → IsWf w.mgr
      → w.mgr.next + 1 < id_mod
      → iso ≢ read_committed
      → Reach (Txn.begin w.mgr).0 (begin_tx iso read_only now others w).0.mgr
      → TxSteps (begin_tx iso read_only now others w).1 t'
      → Reach (begin_tx iso read_only now others w).0.mgr m
      → committed_in m t'.snap id
        ≡ status_eq (status_of (begin_tx iso read_only now others w).0.mgr id) committed
  unfolding begin_tx
  repeatable_view w iso read_only now others t' m id wf room ne between steps r =
      let w' = others (record w { mgr = (Txn.begin w.mgr).0 }) in
      let wf' = Reach-IsWf (begin-IsWf w.mgr wf room) between in
      rw ((TxSteps-SameView ne steps).snap)
        (committed_in_stable w'.mgr m id wf' r ∙ committed_in-take w'.mgr id wf')

-- At READ COMMITTED each statement sees exactly the transactions that have committed when it starts.
pub statement_view :
    {J : Type 0} (w : World J) (t : Tx) (id : ℕ)
    → IsWf w.mgr
    → t.done ≡ false
    → t.failed ≡ false
    → t.iso ≡ read_committed
    → committed_in w.mgr (next_statement w t).0.snap id ≡ status_eq (status_of w.mgr id) committed
unfolding next_statement
statement_view w t id wf live sound rc = rw (live, sound, rc) (committed_in-take w.mgr id wf)
