-- ===== src/Storage/Heap.antt =====
-- internal/storage/heap.go: row versions, visibility, and the heap of one table.
pub mod Rows
pub mod Isolation
pub mod Rollback
pub mod Vacuum
pub mod Conflicts
pub mod Numbering
use lightsql.Common.{
  ℕ, ◌+◌, ◌%◌, Bool, true, false, ◌&&◌, ◌||◌, not, Option, none, some, List, [], ◌∷◌, ◌++◌, ltb,
  leb, ◌==◌, if◌then◌else◌, keep, length, get_elem?, Code, serialization_failure,
}
use lightsql.Types.Value.{Value}
use lightsql.Storage.Txn.{
  TxManager, Status, in_progress, committed, aborted, status_eq, status_of, Snapshot, committed_in,
  invalid_tx_id, id_mod,
}

pub record Version : Type 0 where
  pub id : ℕ
  pub xmin : ℕ
  pub xmax : ℕ
  pub vals : List Value

-- The manager pointer of the Go struct is an argument of the operations that consult it. A pointer
-- to a version is the version's index in `versions`, which only `vacuum` changes.
pub record Heap : Type 0 where
  pub versions : List Version
  pub next_row : ℕ

-- `Version.Visible`
unfoldable pub visible : TxManager → Snapshot → ℕ → Version → Bool
visible m snap self v =
    let created = (v.xmin == self) || committed_in m snap v.xmin in
    if not created
    then false
    else if v.xmax == invalid_tx_id
    then true
    else not ((v.xmax == self) || committed_in m snap v.xmax)

unfoldable pub new_heap : Heap
new_heap = record { versions = []; next_row = 1 }

-- `Heap.Insert`: the heap, and the id of the version that was written.
unfoldable pub insert : ℕ → List Value → Heap → Heap × ℕ
insert tx vals h = (
  record {
    versions =
        h.versions
        ++ (record { id = h.next_row; xmin = tx; xmax = invalid_tx_id; vals = vals }) ∷ [];
    next_row = (h.next_row + 1) % id_mod;
  },
  h.next_row,
)

-- `Heap.Load`
unfoldable pub load : ℕ → ℕ → List Value → Heap → Heap
load tx id vals h = record {
  versions = h.versions ++ (record { id = id; xmin = tx; xmax = invalid_tx_id; vals = vals }) ∷ [];
  next_row = if leb h.next_row id then (id + 1) % id_mod else h.next_row;
}

-- Whether `Heap.Delete` reports `ErrWriteConflict` for the version.
unfoldable pub conflicts : TxManager → ℕ → Version → Bool
conflicts m tx v =
    if not (v.xmax == invalid_tx_id) && not (v.xmax == tx)
    then status_eq (status_of m v.xmax) in_progress || status_eq (status_of m v.xmax) committed
    else false

-- The write through the version's pointer.
unfoldable pub stamp : ℕ → ℕ → List Version → List Version
stamp tx i [] = []
stamp tx ℕ.zero (v ∷ vs) = record v { xmax = tx } ∷ vs
stamp tx (ℕ.suc i) (v ∷ vs) = v ∷ stamp tx i vs

-- `Heap.Delete` of the version at an index. No version at the index: a version that `vacuum` has
-- dropped, so that the write reaches nothing in the heap.
unfoldable pub delete : TxManager → ℕ → ℕ → Heap → Heap × Option Code
delete m tx i h = elim (get_elem? h.versions i) [
  | none ↦ (h, none)
  | some v ↦
      if conflicts m tx v
      then (h, some serialization_failure)
      else (record h { versions = stamp tx i h.versions }, none)
]

-- `Heap.Scan`
unfoldable pub scan : TxManager → Snapshot → ℕ → Heap → List Version
unfolding keep
scan m snap self h = keep (visible m snap self) h.versions

-- `Heap.deadTo`
unfoldable pub dead_to : TxManager → ℕ → Version → Bool
dead_to m horizon v =
    if status_eq (status_of m v.xmin) aborted
    then true
    else not (v.xmax == invalid_tx_id)
      && ltb v.xmax horizon
      && status_eq (status_of m v.xmax) committed

-- `Heap.Vacuum`: the heap, and how many versions were removed.
unfoldable pub vacuum : TxManager → ℕ → Heap → Heap × ℕ
unfolding keep
vacuum m horizon h = (
  record h { versions = keep (λ v. not (dead_to m horizon v)) h.versions },
  length (keep (dead_to m horizon) h.versions),
)
