-- ===== src/Storage/Heap/Isolation.antt =====
-- Snapshot isolation: what other transactions do does not change what a transaction reads.
use lightsql.Common.{
  ℕ, ◌+◌, ◌<◌, ◌≡◌, ◌≢◌, refl, sym, ◌∙◌, false, some, List, map, arith, get_elem?, Bool-cases, inl,
  inr, Option-cases,
}
use lightsql.Types.Value.{Value}
use lightsql.Storage.Txn.{
  TxManager, in_progress, status_of, Snapshot, take, begin, commit, abort, id_mod,
}
use lightsql.Storage.Txn.Invariant
use lightsql.Storage.Txn.Invariant.{
  IsWf, Later, Later-refl, Later-trans, Step, Step-Later, Step-IsWf, begin_running, commit_running,
  abort_running,
}
use lightsql.Storage.Txn.Snapshots.{
  Later-committed_in, running-committed_in, committed_in-status_of,
}
use lightsql.Storage.Heap.{Version, Heap, visible, insert, delete, conflicts, scan}
use lightsql.Storage.Heap.Rows.{row, rows-cong, rows-append_dropped, rows-stamp}

-- A database of one table.
pub record Db : Type 0 where
  pub mgr : TxManager
  pub heap : Heap

-- A step of a transaction other than `self`: it begins, ends, writes or deletes.
pub data OtherStep (self : ℕ) (d : Db) : Db → Type 0 where
  begins : d.mgr.next + 1 < id_mod → OtherStep self d (record d { mgr = (begin d.mgr).0 })
  commits : (id : ℕ) → id ≢ self → OtherStep self d (record d { mgr = commit id d.mgr })
  aborts : (id : ℕ) → id ≢ self → OtherStep self d (record d { mgr = abort id d.mgr })
  inserts :
      (tx : ℕ) (vals : List Value)
      → tx ≢ self
      → d.mgr.status tx ≡ some in_progress
      → OtherStep self d (record d { heap = (insert tx vals d.heap).0 })
  deletes :
      (tx i : ℕ)
      → tx ≢ self
      → d.mgr.status tx ≡ some in_progress
      → OtherStep self d (record d { heap = (delete d.mgr tx i d.heap).0 })

pub data Others (self : ℕ) (d : Db) : Db → Type 0 where
  here : Others self d d
  more : {d' d'' : Db} → Others self d d' → OtherStep self d' d'' → Others self d d''

-- What holds of every database that other transactions have made since `self` took its snapshot
-- of the manager `m`.
record IsSince (m : TxManager) (self : ℕ) (d : Db) : Type 0 where
  wf : IsWf d.mgr
  later : Later m d.mgr
  open_self : d.mgr.status self ≡ some in_progress

IsSince-mgr :
    (m : TxManager) (self : ℕ) (d : Db) (m' : TxManager)
    → IsSince m self d
    → Step d.mgr m'
    → m'.status self ≡ some in_progress
    → IsSince m self (record d { mgr = m' })
IsSince-mgr m self d m' s st o = record {
  wf = Step-IsWf st s.wf;
  later = Later-trans s.later (Step-Later st);
  open_self = o;
}

OtherStep-IsSince :
    {m : TxManager} {self : ℕ} {d d' : Db}
    → OtherStep self d d'
    → IsSince m self d
    → IsSince m self d'
OtherStep-IsSince {m} {self} {d} (begins room) s =
    IsSince-mgr m self d _ s (Invariant.begins room) (begin_running d.mgr self s.wf s.open_self)
OtherStep-IsSince {m} {self} {d} (commits id ne) s =
    IsSince-mgr m self d _ s (Invariant.commits id) (commit_running d.mgr id self ne s.open_self)
OtherStep-IsSince {m} {self} {d} (aborts id ne) s =
    IsSince-mgr m self d _ s (Invariant.aborts id) (abort_running d.mgr id self ne s.open_self)
OtherStep-IsSince (inserts tx vals ne run) s = record {
  wf = s.wf;
  later = s.later;
  open_self = s.open_self;
}
OtherStep-IsSince (deletes tx i ne run) s = record {
  wf = s.wf;
  later = s.later;
  open_self = s.open_self;
}

Others-IsSince :
    {m : TxManager} {self : ℕ} {d d' : Db} → Others self d d' → IsSince m self d → IsSince m self d'
Others-IsSince here s = s
Others-IsSince (more o st) s = OtherStep-IsSince st (Others-IsSince o s)

visible-since :
    (m : TxManager) (self : ℕ) (d : Db) (v : Version)
    → IsWf m
    → IsSince m self d
    → visible d.mgr (take m) self v ≡ visible m (take m) self v
unfolding visible
visible-since m self d v w s = ground (
  arith,
  Later-committed_in m d.mgr v.xmin w s.later,
  Later-committed_in m d.mgr v.xmax w s.later,
)

-- The rows that `self` reads through its snapshot of `m`.
abbrev reads : TxManager → ℕ → Db → List (ℕ × List Value)
reads m self d = map row (scan d.mgr (take m) self d.heap)

reads-mgr :
    (m : TxManager) (self : ℕ) (d : Db) (m' : TxManager)
    → IsWf m
    → IsSince m self d
    → IsSince m self (record d { mgr = m' })
    → reads m self (record d { mgr = m' }) ≡ reads m self d
unfolding scan
reads-mgr m self d m' w s s' =
    rows-cong _ _ d.heap.versions
      λ v. visible-since m self (record d { mgr = m' }) v w s' ∙ sym (visible-since m self d v w s)

fresh_invisible :
    (m : TxManager) (s : Snapshot) (self tx : ℕ) (v : Version)
    → v.xmin ≡ tx
    → tx ≢ self
    → m.status tx ≡ some in_progress
    → visible m s self v ≡ false
unfolding visible
fresh_invisible m s self tx v e ne run = ground (arith, running-committed_in m s tx)

reads-insert :
    (m : TxManager) (self tx : ℕ) (vals : List Value) (d : Db)
    → tx ≢ self
    → d.mgr.status tx ≡ some in_progress
    → reads m self (record d { heap = (insert tx vals d.heap).0 }) ≡ reads m self d
unfolding scan insert
reads-insert m self tx vals d ne run =
    rows-append_dropped _ d.heap.versions _ (fresh_invisible d.mgr (take m) self tx _ refl ne run)

-- Where `delete` finds no conflict, its stamp changes nothing for a reader other than `tx`.
stamp_unseen :
    (m : TxManager) (s : Snapshot) (self tx : ℕ) (v : Version)
    → tx ≢ self
    → m.status self ≡ some in_progress
    → m.status tx ≡ some in_progress
    → conflicts m tx v ≡ false
    → visible m s self (record v { xmax = tx }) ≡ visible m s self v
unfolding visible conflicts status_of
stamp_unseen m s self tx v ne open_self run c =
    ground (arith, running-committed_in m s tx, committed_in-status_of m s v.xmax)

reads-delete :
    (m : TxManager) (self tx i : ℕ) (d : Db)
    → tx ≢ self
    → d.mgr.status self ≡ some in_progress
    → d.mgr.status tx ≡ some in_progress
    → reads m self (record d { heap = (delete d.mgr tx i d.heap).0 }) ≡ reads m self d
unfolding scan delete
reads-delete m self tx i d ne open_self run = elim (Option-cases (get_elem? d.heap.versions i)) [
  | inl out ↦ rw (out, delete)
  | inr (v, at) ↦ elim (Bool-cases (conflicts d.mgr tx v)) [
    | inl clash ↦ rw (at, clash, delete)
    | inr free ↦
        rw (at, free, delete)
          (rows-stamp _ tx i d.heap.versions λ u at_u.
            stamp_unseen d.mgr (take m) self tx u ne open_self run (ground (arith, free, at, at_u)))
  ]
]

OtherStep-reads :
    {m : TxManager} {self : ℕ} {d d' : Db}
    → OtherStep self d d'
    → IsWf m
    → IsSince m self d
    → reads m self d' ≡ reads m self d
OtherStep-reads {m} {self} {d} (begins room) w s =
    reads-mgr m self d _ w s (OtherStep-IsSince (begins room) s)
OtherStep-reads {m} {self} {d} (commits id ne) w s =
    reads-mgr m self d _ w s (OtherStep-IsSince (commits id ne) s)
OtherStep-reads {m} {self} {d} (aborts id ne) w s =
    reads-mgr m self d _ w s (OtherStep-IsSince (aborts id ne) s)
OtherStep-reads {m} {self} {d} (inserts tx vals ne run) w s = reads-insert m self tx vals d ne run
OtherStep-reads {m} {self} {d} (deletes tx i ne run) w s =
    reads-delete m self tx i d ne s.open_self run

IsSince-start :
    (self : ℕ) (d : Db) → IsWf d.mgr → d.mgr.status self ≡ some in_progress → IsSince d.mgr self d
IsSince-start self d w open_self = record {
  wf = w;
  later = Later-refl d.mgr;
  open_self = open_self;
}

-- Repeatable read: what a running transaction reads through a snapshot does not change, whatever
-- other transactions begin, commit, abort, insert or delete after the snapshot was taken.
pub scan_stable :
    (self : ℕ) (d d' : Db)
    → IsWf d.mgr
    → d.mgr.status self ≡ some in_progress
    → Others self d d'
    → map row (scan d'.mgr (take d.mgr) self d'.heap)
      ≡ map row (scan d.mgr (take d.mgr) self d.heap)
scan_stable self d d' w open_self here = refl
scan_stable self d d' w open_self (more o st) =
    OtherStep-reads st w (Others-IsSince o (IsSince-start self d w open_self))
    ∙ scan_stable self d _ w open_self o
