-- ===== src/Storage/Txn/Snapshots.antt =====
-- What a snapshot sees, and that it goes on seeing it.
use lightsql.Common.{ℕ, ◌<◌, ◌≡◌, ◌≢◌, true, false, some, arith, ◌==◌, if◌then◌else◌, ◌⊎◌}
use lightsql.Storage.Txn.{
  TxManager, in_progress, committed, aborted, status_eq, lowest, Snapshot, take, committed_in,
  status_of, horizon, abort, commit, finish, begin,
}
use lightsql.Storage.Txn.Maps.{lowest-le-mem, lowest-le, lowest_found}
use lightsql.Storage.Txn.Invariant.{IsWf, Later, Reach, Reach-Later, running}

-- A snapshot sees exactly the transactions that have committed when it is taken.
pub committed_in-take :
    (m : TxManager) (id : ℕ)
    → IsWf m
    → committed_in m (take m) id ≡ status_eq (status_of m id) committed
unfolding committed_in take status_of
committed_in-take m id w = ground (arith, w.unissued id, w.zero_free, w.active_open id)

pub Later-committed_in :
    (m m' : TxManager) (id : ℕ)
    → IsWf m
    → Later m m'
    → committed_in m' (take m) id ≡ committed_in m (take m) id
unfolding committed_in take status_of
Later-committed_in m m' id w l =
    ground (arith, l.settled id, w.active_open id, lowest-le-mem m.next id m.active)

-- A snapshot is stable: whatever transactions begin, commit or abort after it was taken, the set
-- of transactions that it sees as committed does not change.
pub committed_in_stable :
    (m m' : TxManager) (id : ℕ)
    → IsWf m
    → Reach m m'
    → committed_in m' (take m) id ≡ committed_in m (take m) id
committed_in_stable m m' id w r = Later-committed_in m m' id w (Reach-Later r)

-- The horizon is the least open id, or the next id when nothing is open: every issued transaction
-- below it has finished, and it is itself open or not yet issued.
pub horizon_lem :
    (m : TxManager)
    → IsWf m
    → ((id : ℕ) → id < horizon m → running (m.status id) ≡ false)
      × ((horizon m ≡ m.next) ⊎ (running (m.status (horizon m)) ≡ true))
unfolding horizon
horizon_lem m w = (
  λ id h. ground (arith, w.active_open id, lowest-le-mem m.next id m.active),
  ground (arith, lowest_found m.next m.active, w.active_open (lowest m.next m.active)),
)

-- Nobody sees a transaction that is still running.
pub running-committed_in :
    (m : TxManager) (s : Snapshot) (id : ℕ)
    → m.status id ≡ some in_progress
    → committed_in m s id ≡ false
unfolding committed_in status_of
running-committed_in m s id h = ground arith

pub committed_in-status_of :
    (m : TxManager) (s : Snapshot) (id : ℕ)
    → committed_in m s id ≡ true
    → status_of m id ≡ committed
unfolding committed_in
committed_in-status_of m s id h = ground arith

pub status_of-abort :
    (id j : ℕ) (m : TxManager)
    → m.status id ≡ some in_progress
    → status_of (abort id m) j ≡ (if j == id then aborted else status_of m j)
unfolding abort finish status_of
status_of-abort id j m h = ground arith

pub status_of-commit :
    (id j : ℕ) (m : TxManager)
    → m.status id ≡ some in_progress
    → status_of (commit id m) j ≡ (if j == id then committed else status_of m j)
unfolding commit finish status_of
status_of-commit id j m h = ground arith

-- Below XMin the status alone decides.
pub below_xmin :
    (m0 m : TxManager) (id : ℕ)
    → id < (take m0).xmin
    → status_of m id ≡ committed
    → id ≢ 0
    → committed_in m (take m0) id ≡ true
unfolding committed_in take
below_xmin m0 m id h c nz = ground (arith, lowest-le m0.next m0.active)

-- A transaction that begins has not committed, and changes no other outcome.
pub status_of-begin :
    (m : TxManager) (id : ℕ)
    → IsWf m
    → status_eq (status_of (begin m).0 id) committed ≡ status_eq (status_of m id) committed
unfolding begin status_of
status_of-begin m id w = ground (arith, w.unissued id)
