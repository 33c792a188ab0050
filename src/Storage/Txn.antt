-- ===== src/Storage/Txn.antt =====
-- internal/storage/txn.go: transaction ids, their outcomes, and snapshots.
pub mod Maps
pub mod Invariant
pub mod Snapshots
use lightsql.Common.{
  ℕ, ◌+◌, ◌%◌, ◌^◌, Bool, true, false, ◌&&◌, ◌||◌, not, Option, none, some, List, [], ◌∷◌, ltb, leb,
  ◌==◌, if◌then◌else◌,
}

-- `InvalidTxID`
abbrev pub invalid_tx_id : ℕ
invalid_tx_id = 0

-- One past the largest TxID, a uint64.
abbrev pub id_mod : ℕ
id_mod = 2 ^ 64

pub data Status : Type 0 where
  in_progress committed aborted : Status

abbrev pub status_eq : Status → Status → Bool
status_eq in_progress in_progress = true
status_eq committed committed = true
status_eq aborted aborted = true
status_eq _ _ = false

-- The journal field of the Go struct is in `World` of Storage/Tx.
pub record TxManager : Type 0 where
  pub next : ℕ
  pub status : ℕ → Option Status
  pub active : List ℕ

unfoldable pub new_tx_manager : TxManager
new_tx_manager = record { next = 1; status = λ _. none; active = [] }

-- A write to the map of outcomes.
abbrev pub put_status : ℕ → Status → (ℕ → Option Status) → ℕ → Option Status
put_status id s m j = if j == id then some s else m j

-- `active` is a map used as a set: membership, insertion and `delete`.
abbrev pub contains : List ℕ → ℕ → Bool
contains [] id = false
contains (x ∷ xs) id = (x == id) || contains xs id

unfoldable pub set_add : ℕ → List ℕ → List ℕ
set_add id l = if contains l id then l else id ∷ l

unfoldable pub set_delete : ℕ → List ℕ → List ℕ
set_delete id [] = []
set_delete id (x ∷ xs) = let rest = set_delete id xs in if x == id then rest else x ∷ rest

unfoldable pub begin : TxManager → TxManager × ℕ
begin m =
    let id = m.next in
    (
      record {
        next = (m.next + 1) % id_mod;
        status = put_status id in_progress m.status;
        active = set_add id m.active;
      },
      id,
    )

unfoldable pub finish : ℕ → Status → TxManager → TxManager
finish id s m = elim (m.status id) [
  | none ↦ m
  | some current ↦
      if not (status_eq current in_progress)
      then m
      else record m { status = put_status id s m.status; active = set_delete id m.active }
]

unfoldable pub commit : ℕ → TxManager → TxManager
commit id m = finish id committed m

unfoldable pub abort : ℕ → TxManager → TxManager
abort id m = finish id aborted m

unfoldable pub status_of : TxManager → ℕ → Status
status_of m id = elim (m.status id) [ none ↦ aborted | some s ↦ s ]

-- The loop `for id := range m.active { if id < oldest { oldest = id } }`.
unfoldable pub lowest : ℕ → List ℕ → ℕ
lowest oldest [] = oldest
lowest oldest (id ∷ ids) = lowest (if ltb id oldest then id else oldest) ids

unfoldable pub horizon : TxManager → ℕ
horizon m = lowest m.next m.active

-- The manager pointer of the Go struct is an argument of `committed_in`.
pub record Snapshot : Type 0 where
  pub xmin : ℕ
  pub xmax : ℕ
  pub active : List ℕ

unfoldable pub take : TxManager → Snapshot
take m = record { xmin = lowest m.next m.active; xmax = m.next; active = m.active }

-- `Snapshot.committed`, asked while the manager is in state `m`.
unfoldable pub committed_in : TxManager → Snapshot → ℕ → Bool
committed_in m s id =
    if (id == invalid_tx_id) || leb s.xmax id
    then false
    else if leb s.xmin id && contains s.active id
    then false
    else status_eq (status_of m id) committed
