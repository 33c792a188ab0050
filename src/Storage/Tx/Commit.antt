-- ===== src/Storage/Tx/Commit.antt =====
-- Commit and rollback: durable before visible, and inert once a transaction has ended.
use lightsql.Common.{
  ℕ, ◌≡◌, ◌≢◌, ◌⊎◌, refl, true, false, Option, none, some, List, [], arith, Code, Bool-cases, inl,
  inr, Option-cases, List-cases,
}
use lightsql.Wal.Record.{Record}
use lightsql.Storage.Txn.{in_progress, committed, aborted, status_of}
use lightsql.Storage.Txn.Snapshots.{status_of-abort, status_of-commit}
use lightsql.Storage.Tx.{World, Tx, commit, flush, flush_records, write_to, end_commit}

-- What a commit needs of the journal: it has taken the records, if there is a journal and there
-- are records to take.
abbrev pub IsLogged :
    {J : Type 0} → (J → List Record → J × Option Code) → Tx → World J → World J → Type 0
IsLogged write t w w' =
    (t.pending ≡ [])
    ⊎ (t.journal ≡ none)
    ⊎ ((j : ℕ) × (t.journal ≡ some j)
        × ((write (w.journals j) t.pending).1 ≡ none)
        × (w'.journals j ≡ (write (w.journals j) t.pending).0))

module _ {J : Type 0} (write : J → List Record → J × Option Code) where
  flush_mgr : (t : Tx) (w : World J) → (flush write t w).1.mgr ≡ w.mgr
  unfolding flush flush_records write_to
  flush_mgr t w = ground arith

  flush_id : (t : Tx) (w : World J) → (flush write t w).0.id ≡ t.id
  unfolding flush
  flush_id t w = ground arith

  flush-IsLogged :
      (t : Tx) (w : World J) → (flush write t w).2 ≡ none → IsLogged write t w (flush write t w).1
  unfolding flush flush_records write_to
  flush-IsLogged t w e = elim (List-cases t.pending) [
    | inl empty ↦ inl empty
    | inr (r, rs, at) ↦ elim (Option-cases t.journal) [
      | inl gone ↦ inr (inl gone)
      | inr (j, to) ↦ inr (inr (j, to, ground arith, ground arith))
    ]
  ]

  -- What a commit has done, on every path.
  abbrev pub Outcome : Tx → World J → Tx × World J × Option Code → Type 0
  Outcome t w (t', w', e) =
      (t'.done ≡ true)
      × (((e ≡ none) × (status_of w'.mgr t.id ≡ committed) × IsLogged write t w w')
          ⊎ ((e ≢ none) × (status_of w'.mgr t.id ≡ aborted)))

  Outcome-end_commit :
      (t : Tx) (w : World J) (t' : Tx) (w' : World J) (e : Option Code)
      → w.mgr.status t.id ≡ some in_progress
      → w'.mgr ≡ w.mgr
      → (e ≡ none → IsLogged write t w w')
      → Outcome t w (end_commit t.id t' w' e)
  unfolding end_commit
  Outcome-end_commit t w t' w' none run m l =
      (refl, inl (refl, ground (arith, status_of-commit t.id t.id w.mgr run), l refl))
  Outcome-end_commit t w t' w' (some c) run m l =
      (refl, inr ((λ x. cc), ground (arith, status_of-abort t.id t.id w.mgr run)))

  -- Durable before visible. Either the commit reports no error, has written every record that the
  -- transaction buffered to its journal, and has made the transaction visible; or it reports an
  -- error and has aborted it. Either way the transaction has ended.
  pub commit_durable :
      (t : Tx) (w : World J)
      → t.done ≡ false
      → w.mgr.status t.id ≡ some in_progress
      → Outcome t w (commit write t w)
  unfolding commit
  commit_durable t w live run = elim (Bool-cases t.failed) [
    | inl broken ↦
        rw (live, broken)
          (refl, inr ((λ x. cc), ground (arith, status_of-abort t.id t.id w.mgr run)))
    | inr sound ↦
        rw (live, sound)
          (Outcome-end_commit t w (flush write t w).0 (flush write t w).1 (flush write t w).2 run
            (flush_mgr t w) (flush-IsLogged t w))
  ]
