-- ===== src/Storage/Heap/Rollback.antt =====
-- Rollback: marking a transaction aborted undoes its writes for every reader.
use lightsql.Common.{
  ℕ, ◌≡◌, ◌≢◌, refl, sym, ◌∙◌, true, false, some, List, [], ◌∷◌, map, keep, ◌==◌, if◌then◌else◌,
  arith, get_elem?, Bool-cases, inl, inr, Option-cases,
}
use lightsql.Types.Value.{Value}
use lightsql.Storage.Txn.{
  invalid_tx_id, TxManager, in_progress, status_of, Snapshot, committed_in, abort,
}
use lightsql.Storage.Txn.Snapshots.{committed_in-status_of, status_of-abort}
use lightsql.Storage.Heap.{Version, Heap, visible, insert, delete, conflicts, scan}
use lightsql.Storage.Heap.Rows.{row, rows, rows-append_dropped, rows-stamp}

-- The writes of one transaction.
pub data OwnWrites (m : TxManager) (tx : ℕ) (h : Heap) : Heap → Type 0 where
  here : OwnWrites m tx h h
  inserts :
      {h' : Heap}
      → OwnWrites m tx h h'
      → (vals : List Value) → OwnWrites m tx h (insert tx vals h').0
  deletes : {h' : Heap} → OwnWrites m tx h h' → (i : ℕ) → OwnWrites m tx h (delete m tx i h').0

-- `m` is the manager before the rollback of `tx`, `s` and `r` the snapshot and id of a reader.
module _ (m : TxManager) (tx r : ℕ) (s : Snapshot) (run : m.status tx ≡ some in_progress)
    (reader : m.status r ≡ some in_progress) (ne : r ≢ tx) where
  abbrev after : Heap → List (ℕ × List Value)
  after h = map row (scan (abort tx m) s r h)

  aborted_unseen : committed_in (abort tx m) s tx ≡ false
  aborted_unseen =
      ground (arith, committed_in-status_of (abort tx m) s tx, status_of-abort tx tx m run)

  insert_undone : (h : Heap) (vals : List Value) → after (insert tx vals h).0 ≡ after h
  unfolding scan insert visible
  insert_undone h vals = rows-append_dropped _ h.versions _ (ground (arith, aborted_unseen))

  stamp_undone :
      (v : Version)
      → conflicts m tx v ≡ false
      → visible (abort tx m) s r (record v { xmax = tx }) ≡ visible (abort tx m) s r v
  unfolding visible conflicts
  stamp_undone v c = ground (
    arith,
    aborted_unseen,
    committed_in-status_of (abort tx m) s v.xmax,
    status_of-abort tx v.xmax m run,
    ap_status r reader,
  )
    where
      ap_status : (j : ℕ) → m.status j ≡ some in_progress → status_of m j ≡ in_progress
      ap_status j h = unfold status_of in ground (arith, h)

  delete_undone : (h : Heap) (i : ℕ) → after (delete m tx i h).0 ≡ after h
  unfolding scan delete
  delete_undone h i = elim (Option-cases (get_elem? h.versions i)) [
    | inl out ↦ rw (out, delete)
    | inr (v, at) ↦ elim (Bool-cases (conflicts m tx v)) [
      | inl clash ↦ rw (at, clash, delete)
      | inr free ↦
          rw (at, free, delete)
            (rows-stamp _ tx i h.versions λ u at_u. stamp_undone u (ground (arith, free, at, at_u)))
    ]
  ]

-- The versions that other transactions than `tx` wrote, without the stamps that it left.
abbrev pub without : ℕ → List Version → List Version
without tx [] = []
without tx (v ∷ vs) =
    let rest = without tx vs in
    if v.xmin == tx
    then rest
    else (if v.xmax == tx then record v { xmax = invalid_tx_id } else v) ∷ rest

module _ (m : TxManager) (tx r : ℕ) (s : Snapshot) (run : m.status tx ≡ some in_progress)
    (ne : r ≢ tx) where
  aborted_gone : committed_in (abort tx m) s tx ≡ false
  aborted_gone =
      ground (arith, committed_in-status_of (abort tx m) s tx, status_of-abort tx tx m run)

  own_unseen : (v : Version) → (v.xmin == tx) ≡ true → visible (abort tx m) s r v ≡ false
  unfolding visible
  own_unseen v h = ground (arith, aborted_gone)

  unstamped :
      (v : Version)
      → (v.xmax == tx) ≡ true
      → visible (abort tx m) s r (record v { xmax = invalid_tx_id }) ≡ visible (abort tx m) s r v
  unfolding visible
  unstamped v h = ground (arith, aborted_gone)

  rows-without :
      (vs : List Version)
      → rows (visible (abort tx m) s r) (without tx vs) ≡ rows (visible (abort tx m) s r) vs
  unfolding keep
  rows-without [] = refl
  rows-without (v ∷ vs) = elim (Bool-cases (v.xmin == tx)) [
    | inl own ↦ rw (own, own_unseen v own) (rows-without vs)
    | inr other ↦ elim (Bool-cases (v.xmax == tx)) [
      | inl stamped ↦ rw (other, stamped) (ground (arith, unstamped v stamped, rows-without vs))
      | inr kept ↦ rw (other, kept) (ground (arith, rows-without vs))
    ]
  ]

writes_undone :
    (m : TxManager) (tx r : ℕ) (s : Snapshot) (h h' : Heap)
    → m.status tx ≡ some in_progress
    → m.status r ≡ some in_progress
    → r ≢ tx
    → OwnWrites m tx h h'
    → map row (scan (abort tx m) s r h') ≡ map row (scan (abort tx m) s r h)
writes_undone m tx r s h h' run reader ne here = refl
writes_undone m tx r s h h' run reader ne (inserts {h' = g} o vals) =
    insert_undone m tx r s run reader ne g vals ∙ writes_undone m tx r s h g run reader ne o
writes_undone m tx r s h h' run reader ne (deletes {h' = g} o i) =
    delete_undone m tx r s run reader ne g i ∙ writes_undone m tx r s h g run reader ne o

-- Rollback is atomic. Wherever in a history of the heap a running transaction `tx` is aborted, every other
-- running transaction reads then, under any snapshot, what it would read of the heap without the versions
-- that `tx` wrote and without the stamps of its deletes; and writes of `tx` with no step of another
-- transaction between them and the abort leave it the rows that it would read if they had not been made.
pub rollback_undoes :
    (m : TxManager) (tx r : ℕ) (s : Snapshot) (h h' : Heap)
    → m.status tx ≡ some in_progress
    → m.status r ≡ some in_progress
    → r ≢ tx
    → OwnWrites m tx h h'
    → (map row (scan (abort tx m) s r h')
        ≡ map row (scan (abort tx m) s r (record h' { versions = without tx h'.versions })))
      × (map row (scan (abort tx m) s r h') ≡ map row (scan (abort tx m) s r h))
unfolding scan
rollback_undoes m tx r s h h' run reader ne o =
    (sym (rows-without m tx r s run ne h'.versions), writes_undone m tx r s h h' run reader ne o)
