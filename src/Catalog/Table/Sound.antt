-- ===== src/Catalog/Table/Sound.antt =====
-- The rows of a table fit its columns (internal/catalog/catalog.go: Insert, Update, Delete, Load, Values).
use mathlib.Core.Path.{subst}
use lightsql.Common.{
  ℕ, zero, suc, ◌≡◌, refl, List, [], ◌∷◌, Option, none, some, ◌==◌, length, get_elem?, All,
  All-append, Bool-cases, inl, inr, Code, Result, ok, err,
}
use lightsql.Storage.Txn.{TxManager}
use lightsql.Storage.Heap
use lightsql.Storage.Heap.{Heap, Version, stamp, conflicts}
use lightsql.Storage.Tx.{Tx}
use lightsql.Exec.Eval.{Row}
use lightsql.Catalog.Row.{Column, check_row}
use lightsql.Catalog.Row.Fit.{IsScaled, Fits, Gives, check_row-Fits}
use lightsql.Catalog.Table.{
  Table, inserted, insert_row, replaced, updated, update_row, removed, delete_row, load_row, pad,
  values,
}

-- Each row, at the width of the table, has in each column a value that the column can hold.
abbrev pub IsSound : Table → Type 0
IsSound t = All (λ v. Fits t.columns (values t.columns v)) t.heap.versions

-- One operation on a table that reports no error. A row that is loaded is one that fitted when it was logged.
pub data TableOp : Table → Table → Type 0 where
  inserting :
      (tx tx' : Tx) (row : Row) (t t' : Table)
      → insert_row tx row t ≡ some (ok (t', tx'))
      → TableOp t t'
  updating :
      (m : TxManager) (tx tx' : Tx) (i : ℕ) (old : Version) (row : Row) (t t' : Table)
      → update_row m tx i old row t ≡ some (ok (t', tx'))
      → TableOp t t'
  deleting :
      (m : TxManager) (tx tx' : Tx) (i : ℕ) (old : Version) (t t' : Table)
      → delete_row m tx i old t ≡ ok (t', tx')
      → TableOp t t'
  loading :
      (tx : Tx) (id : ℕ) (row : Row) (t : Table)
      → Fits t.columns row
      → TableOp t (load_row tx id row t)

pad-Fits : (cols : List Column) (row : Row) → Fits cols row → Fits cols (pad cols row)
unfolding pad
pad-Fits [] row h = tt
pad-Fits (col ∷ cols) [] h = elim h [ ]
pad-Fits (col ∷ cols) (v ∷ row) h = (h.0, pad-Fits cols row h.1)

values-Fits : (cols : List Column) (v : Version) → Fits cols v.vals → Fits cols (values cols v)
unfolding values
values-Fits cols v h = elim (Bool-cases (length v.vals == length cols)) [
  | inl e ↦ rw e h
  | inr e ↦ rw e (pad-Fits cols v.vals h)
]

-- The id and the stamps of a version do not matter to its values.
stamp-Fits :
    (cols : List Column) (tx i : ℕ) (vs : List Version)
    → All (λ v. Fits cols (values cols v)) vs
    → All (λ v. Fits cols (values cols v)) (stamp tx i vs)
unfolding stamp values
stamp-Fits cols tx i [] h = tt
stamp-Fits cols tx zero (v ∷ vs) h = h
stamp-Fits cols tx (suc i) (v ∷ vs) h = (h.0, stamp-Fits cols tx i vs h.1)

delete-Fits :
    (cols : List Column) (m : TxManager) (tx i : ℕ) (h : Heap)
    → All (λ v. Fits cols (values cols v)) h.versions
    → All (λ v. Fits cols (values cols v)) (Heap.delete m tx i h).0.versions
unfolding Heap.delete
delete-Fits cols m tx i h sound = by_version (get_elem? h.versions i) refl
  where
    by_version :
        (o : Option Version)
        → get_elem? h.versions i ≡ o
        → All (λ v. Fits cols (values cols v)) (Heap.delete m tx i h).0.versions
    by_version none e = rw (Heap.delete, e) sound
    by_version (some v) e = elim (Bool-cases (conflicts m tx v)) [
      | inl c ↦ rw (Heap.delete, e, c) sound
      | inr c ↦ rw (Heap.delete, e, c) (stamp-Fits cols tx i h.versions sound)
    ]

inserted-IsSound :
    (tx : Tx) (t : Table) (o : Option (Result Row))
    → IsSound t
    → Gives (Fits t.columns) o
    → Gives (λ p. IsSound p.0) (inserted tx t o)
unfolding Heap.insert
inserted-IsSound tx t (some (ok row)) sound h =
    All-append _ t.heap.versions _ sound (values-Fits t.columns _ h, tt)
inserted-IsSound tx t (some (err c)) sound h = tt
inserted-IsSound tx t none sound h = tt

replaced-IsSound :
    (tx : Tx) (old_id : ℕ) (row : Row) (t : Table) (r : Heap × Option Code)
    → All (λ v. Fits t.columns (values t.columns v)) r.0.versions
    → Fits t.columns row
    → Gives (λ p. IsSound p.0) (replaced tx old_id row t r)
unfolding Heap.insert
replaced-IsSound tx old_id row t (heap, some c) sound h = tt
replaced-IsSound tx old_id row t (heap, none) sound h =
    All-append _ heap.versions _ sound (values-Fits t.columns _ h, tt)

updated-IsSound :
    (m : TxManager) (tx : Tx) (i old_id : ℕ) (t : Table) (o : Option (Result Row))
    → IsSound t
    → Gives (Fits t.columns) o
    → Gives (λ p. IsSound p.0) (updated m tx i old_id t o)
updated-IsSound m tx i old_id t (some (ok row)) sound h =
    replaced-IsSound tx old_id row t (Heap.delete m tx.id i t.heap)
      (delete-Fits t.columns m tx.id i t.heap sound) h
updated-IsSound m tx i old_id t (some (err c)) sound h = tt
updated-IsSound m tx i old_id t none sound h = tt

removed-IsSound :
    (tx : Tx) (id : ℕ) (t : Table) (r : Heap × Option Code)
    → All (λ v. Fits t.columns (values t.columns v)) r.0.versions
    → Gives (λ p. IsSound p.0) (some (removed tx id t r))
removed-IsSound tx id t (heap, some c) sound = tt
removed-IsSound tx id t (heap, none) sound = sound

-- If no column of a table has a declared scale of 2^31 or more, and each row fits the columns, each does
-- so after an insert, an update, a delete or a load of a row that fits: no null is in a NOT NULL column,
-- and a numeric column with a precision and a scale holds nulls and decimals of that scale that are
-- below ten to the precision in the last place.
pub TableOp-IsSound :
    (t t' : Table)
    → All (λ col. IsScaled col.mods) t.columns
    → TableOp t t'
    → IsSound t
    → IsSound t'
unfolding insert_row update_row delete_row load_row Heap.load
TableOp-IsSound t t' small (inserting tx tx' row _ _ e) sound =
    subst (Gives (λ p. IsSound p.0)) e
      (inserted-IsSound tx t (check_row t.columns row) sound (check_row-Fits t.columns row small))
TableOp-IsSound t t' small (updating m tx tx' i old row _ _ e) sound =
    subst (Gives (λ p. IsSound p.0)) e (
      updated-IsSound m tx i old.id t (check_row t.columns row) sound
        (check_row-Fits t.columns row small))
TableOp-IsSound t t' small (deleting m tx tx' i old _ _ e) sound =
    subst (λ r. Gives (λ p. IsSound p.0) (some r)) e
      (removed-IsSound tx old.id t (Heap.delete m tx.id i t.heap)
        (delete-Fits t.columns m tx.id i t.heap sound))
TableOp-IsSound t t' small (loading tx id row _ h) sound =
    All-append _ t.heap.versions _ sound (values-Fits t.columns _ h, tt)
