-- ===== src/Storage/Heap/Conflicts.antt =====
-- Write conflicts: the first transaction to delete a version keeps it until it aborts.
use lightsql.Common.{
  ℕ, ◌≡◌, ◌≢◌, ◌↔◌, none, some, List, [], ◌∷◌, arith, get_elem?, serialization_failure,
}
use lightsql.Storage.Txn.{TxManager, aborted, status_of, invalid_tx_id}
use lightsql.Storage.Heap.{Version, Heap, conflicts, stamp, delete}

get_elem?-stamp :
    (tx i : ℕ) (vs : List Version) (v : Version)
    → get_elem? vs i ≡ some v
    → get_elem? (stamp tx i vs) i ≡ some (record v { xmax = tx })
unfolding stamp
get_elem?-stamp tx i [] v h = cc
get_elem?-stamp tx ℕ.zero (x ∷ xs) v h = ground arith
get_elem?-stamp tx (ℕ.suc i) (x ∷ xs) v h = get_elem?-stamp tx i xs v h

-- Of two transactions that delete one version the second is refused, unless the first has aborted:
-- after a delete by `tx` that reports no error, a delete by `tx'` at any later state of the
-- manager fails exactly when `tx` has not aborted, and a failed delete leaves the heap as it was.
pub delete_conflict :
    (m m' : TxManager) (tx tx' i : ℕ) (h : Heap) (v : Version)
    → get_elem? h.versions i ≡ some v
    → (delete m tx i h).1 ≡ none
    → tx ≢ tx'
    → tx ≢ invalid_tx_id
    → let h1 = (delete m tx i h).0 in
      (((delete m' tx' i h1).1 ≡ some serialization_failure) ↔ (status_of m' tx ≢ aborted))
      × ((delete m' tx' i h1).1 ≡ some serialization_failure → (delete m' tx' i h1).0 ≡ h1)
unfolding delete conflicts
delete_conflict m m' tx tx' i h v at done ne nz =
    ground (arith, get_elem?-stamp tx i h.versions v at)
