-- ===== src/Storage/Heap/Vacuum.antt =====
-- What `Vacuum` may reclaim: safe below every open snapshot's XMin, and not at `Horizon`.
use lightsql.Common.{
  ℕ, ◌≤◌, ◌<◌, ◌≡◌, ◌≢◌, Bool, true, false, not, some, List, [], ◌∷◌, arith, keep, ◌+◌, length,
}
use lightsql.Storage.Txn.{TxManager, in_progress, committed, status_of, commit, take, horizon}
use lightsql.Storage.Txn.Invariant.{IsWf, Step, Reach}
use lightsql.Storage.Txn.Snapshots.{
  committed_in-status_of, status_of-commit, below_xmin, committed_in-take, running-committed_in,
  committed_in_stable,
}
use lightsql.Storage.Heap.{Version, Heap, visible, scan, dead_to, vacuum}
use lightsql.Storage.Heap.Rows.{keep-keep}

dead_invisible :
    (m0 m : TxManager) (self limit : ℕ) (v : Version)
    → m.status self ≡ some in_progress
    → limit ≤ (take m0).xmin
    → dead_to m limit v ≡ true
    → visible m (take m0) self v ≡ false
unfolding visible dead_to status_of
dead_invisible m0 m self limit v open_self below dead =
    ground (arith, committed_in-status_of m (take m0) v.xmin, below_xmin m0 m v.xmax)

keep-split {ℓ} :
    {A : Type ℓ} (p : A → Bool) (xs : List A)
    → length (keep (λ x. not (p x)) xs) + length (keep p xs) ≡ length xs
unfolding keep
keep-split p [] = omega arith
keep-split p (x ∷ xs) = ground (arith, keep-split p xs)

-- Vacuuming up to a limit that is at most the XMin of a snapshot changes nothing for a running
-- transaction that reads through the snapshot, and the count returned is what the heap lost.
pub vacuum_safe :
    (m0 m : TxManager) (self limit : ℕ) (h : Heap)
    → m.status self ≡ some in_progress
    → limit ≤ (take m0).xmin
    → (scan m (take m0) self (vacuum m limit h).0 ≡ scan m (take m0) self h)
      × (length (vacuum m limit h).0.versions + (vacuum m limit h).1 ≡ length h.versions)
unfolding scan vacuum
vacuum_safe m0 m self limit h open_self below = (
  keep-keep _ _ h.versions
      λ v gone. dead_invisible m0 m self limit v open_self below (ground arith),
  keep-split (dead_to m limit) h.versions,
)

abbrev pub one_version : Version → Heap
one_version v = record { versions = v ∷ []; next_row = v.id + 1 }

-- `v` was committed before the snapshot of `m`; `x`, open in it, deletes it and commits.
module _ (m : TxManager) (self x : ℕ) (v : Version) (w : IsWf m)
    (open_self : m.status self ≡ some in_progress) (open_x : m.status x ≡ some in_progress)
    (ne : x ≢ self) (created : status_of m v.xmin ≡ committed) (deleter : v.xmax ≡ x) where
  still_visible : visible (commit x m) (take m) self v ≡ true
  unfolding visible status_of
  still_visible = ground (
    arith,
    committed_in_stable m (commit x m) v.xmin w (Reach.more Reach.here (Step.commits x)),
    committed_in_stable m (commit x m) v.xmax w (Reach.more Reach.here (Step.commits x)),
    committed_in-take m v.xmin w,
    running-committed_in m (take m) v.xmax,
  )

  now_dead : (limit : ℕ) → x < limit → dead_to (commit x m) limit v ≡ true
  unfolding dead_to status_of
  now_dead limit below =
      ground
        (arith, status_of-commit x v.xmin m open_x, status_of-commit x v.xmax m open_x, w.zero_free)

-- `Horizon` is not such a limit. A version that committed before the snapshot, and that another
-- transaction `x`, open when the snapshot was taken, deletes and commits: the snapshot still shows
-- it, and once every open transaction is younger than `x`, vacuuming at the horizon removes it.
pub vacuum_hides :
    (m : TxManager) (self x : ℕ) (v : Version)
    → IsWf m
    → m.status self ≡ some in_progress
    → m.status x ≡ some in_progress
    → x ≢ self
    → status_of m v.xmin ≡ committed
    → v.xmax ≡ x
    → x < horizon (commit x m)
    → (scan (commit x m) (take m) self (one_version v) ≡ v ∷ [])
      × (scan
            (commit x m)
            (take m)
            self
            (vacuum (commit x m) (horizon (commit x m)) (one_version v)).0
          ≡ [])
unfolding scan vacuum keep
vacuum_hides m self x v w open_self open_x ne created deleter below = (
  rw (still_visible m self x v w open_self open_x ne created deleter),
  rw (now_dead m self x v w open_self open_x ne created deleter _ below),
)
