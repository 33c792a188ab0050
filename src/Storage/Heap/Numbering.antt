-- ===== src/Storage/Heap/Numbering.antt =====
-- Row ids: every operation of the heap keeps them distinct and below `nextRow`.
use lightsql.Common.{
  ℕ, ◌+◌, ◌<◌, ◌≤◌, ◌≢◌, sym, Bool, List, [], ◌∷◌, ◌++◌, arith, Bool-cases, Option-cases, inl, inr,
  get_elem?, All, All-append, keep,
}
use lightsql.Types.Value.{Value}
use lightsql.Storage.Txn.{TxManager, id_mod}
use lightsql.Storage.Heap.{Version, Heap, conflicts, stamp, delete, insert, load, vacuum, new_heap}

abbrev Below : ℕ → List Version → Type 0
Below n = All (λ v. v.id < n)

-- No version of the list belongs to the row `id`.
abbrev pub Without : ℕ → List Version → Type 0
Without id = All (λ v. v.id ≢ id)

abbrev Distinct : List Version → Type 0
Distinct [] = Unit
Distinct (v ∷ vs) = Without v.id vs × Distinct vs

pub record IsNumbered (h : Heap) : Type 0 where
  pub below : Below h.next_row h.versions
  pub distinct : Distinct h.versions

Below-weaken : (n m : ℕ) (vs : List Version) → n ≤ m → Below n vs → Below m vs
Below-weaken n m [] le b = tt
Below-weaken n m (v ∷ vs) le b = (omega (arith, b.0), Below-weaken n m vs le b.1)

Below→Without : (n : ℕ) (vs : List Version) → Below n vs → Without n vs
Below→Without n [] b = tt
Below→Without n (v ∷ vs) b = (ground (arith, b.0), Below→Without n vs b.1)

Distinct-append_one :
    (vs : List Version) (v : Version) → Distinct vs → Without v.id vs → Distinct (vs ++ v ∷ [])
Distinct-append_one [] v d n = (tt, tt)
Distinct-append_one (x ∷ xs) v d n = (
  All-append (λ u. u.id ≢ x.id) xs (v ∷ []) d.0 (λ e. n.0 (sym e), tt),
  Distinct-append_one xs v d.1 n.1,
)

All-stamp :
    (P : ℕ → Type 0) (tx i : ℕ) (vs : List Version)
    → All (λ v. P v.id) vs
    → All (λ v. P v.id) (stamp tx i vs)
unfolding stamp
All-stamp P tx i [] a = a
All-stamp P tx ℕ.zero (v ∷ vs) a = (a.0, a.1)
All-stamp P tx (ℕ.suc i) (v ∷ vs) a = (a.0, All-stamp P tx i vs a.1)

Distinct-stamp : (tx i : ℕ) (vs : List Version) → Distinct vs → Distinct (stamp tx i vs)
unfolding stamp
Distinct-stamp tx i [] d = d
Distinct-stamp tx ℕ.zero (v ∷ vs) d = (d.0, d.1)
Distinct-stamp tx (ℕ.suc i) (v ∷ vs) d =
    (All-stamp (λ id. id ≢ v.id) tx i vs d.0, Distinct-stamp tx i vs d.1)

All-keep {ℓ κ} :
    {A : Type ℓ} (P : A → Type κ) (p : A → Bool) (xs : List A) → All P xs → All P (keep p xs)
unfolding keep
All-keep P p [] a = tt
All-keep P p (x ∷ xs) a = elim (Bool-cases (p x)) [
  | inl yes' ↦ rw yes' (a.0, All-keep P p xs a.1)
  | inr no' ↦ rw no' (All-keep P p xs a.1)
]

Distinct-keep : (p : Version → Bool) (vs : List Version) → Distinct vs → Distinct (keep p vs)
unfolding keep
Distinct-keep p [] d = tt
Distinct-keep p (v ∷ vs) d = elim (Bool-cases (p v)) [
  | inl yes' ↦ rw yes' (All-keep (λ u. u.id ≢ v.id) p vs d.0, Distinct-keep p vs d.1)
  | inr no' ↦ rw no' (Distinct-keep p vs d.1)
]

Below-append_one :
    (n m : ℕ) (vs : List Version) (v : Version)
    → n ≤ m
    → Below n vs
    → v.id < m
    → Below m (vs ++ v ∷ [])
Below-append_one n m vs v le b h =
    All-append (λ u. u.id < m) vs (v ∷ []) (Below-weaken n m vs le b) (h, tt)

insert-IsNumbered :
    (tx : ℕ) (vals : List Value) (h : Heap)
    → h.next_row + 1 < id_mod
    → IsNumbered h
    → IsNumbered (insert tx vals h).0
unfolding insert
insert-IsNumbered tx vals h room n = record {
  below = Below-append_one h.next_row _ h.versions _ (omega arith) n.below (omega arith);
  distinct =
      Distinct-append_one h.versions _ n.distinct (Below→Without h.next_row h.versions n.below);
}

load-IsNumbered :
    (tx id : ℕ) (vals : List Value) (h : Heap)
    → id + 1 < id_mod
    → Without id h.versions
    → IsNumbered h
    → IsNumbered (load tx id vals h)
unfolding load
load-IsNumbered tx id vals h room free n = record {
  below = Below-append_one h.next_row _ h.versions _ (ground arith) n.below (ground arith);
  distinct = Distinct-append_one h.versions _ n.distinct free;
}

delete-IsNumbered :
    (m : TxManager) (tx i : ℕ) (h : Heap) → IsNumbered h → IsNumbered (delete m tx i h).0
unfolding delete
delete-IsNumbered m tx i h n = elim (Option-cases (get_elem? h.versions i)) [
  | inl out ↦ rw (out, delete) n
  | inr (v, at) ↦ elim (Bool-cases (conflicts m tx v)) [
    | inl clash ↦ rw (at, clash, delete) n
    | inr free ↦
        rw (at, free, delete)
          (record {
            below = All-stamp (λ id. id < h.next_row) tx i h.versions n.below;
            distinct = Distinct-stamp tx i h.versions n.distinct;
          })
  ]
]

-- The writes that change a heap, with the room that an id needs: an id that is read back from the
-- log belongs to no version of the heap.
pub data HeapOp (h : Heap) : Heap → Type 0 where
  inserts : (tx : ℕ) (vals : List Value) → h.next_row + 1 < id_mod → HeapOp h (insert tx vals h).0
  loads :
      (tx id : ℕ) (vals : List Value)
      → id + 1 < id_mod
      → Without id h.versions
      → HeapOp h (load tx id vals h)
  deletes : (m : TxManager) (tx i : ℕ) → HeapOp h (delete m tx i h).0
  vacuums : (m : TxManager) (limit : ℕ) → HeapOp h (vacuum m limit h).0

-- Row ids stay distinct and below the next id to be issued, under every write of the heap.
pub HeapOp-IsNumbered : {h h' : Heap} → HeapOp h h' → IsNumbered h → IsNumbered h'
unfolding vacuum
HeapOp-IsNumbered {h} (inserts tx vals room) n = insert-IsNumbered tx vals h room n
HeapOp-IsNumbered {h} (loads tx id vals room free) n = load-IsNumbered tx id vals h room free n
HeapOp-IsNumbered {h} (deletes m tx i) n = delete-IsNumbered m tx i h n
HeapOp-IsNumbered {h} (vacuums m limit) n = record {
  below = All-keep (λ v. v.id < h.next_row) _ h.versions n.below;
  distinct = Distinct-keep _ h.versions n.distinct;
}

pub new_heap-IsNumbered : IsNumbered new_heap
unfolding new_heap
new_heap-IsNumbered = record { below = tt; distinct = tt }
