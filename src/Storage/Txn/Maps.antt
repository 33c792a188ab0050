-- ===== src/Storage/Txn/Maps.antt =====
-- The set of active ids behaves as a set, and the loop of `Take` and `Horizon` finds its minimum.
use lightsql.Common.{
  ℕ, ◌≤◌, ◌≡◌, refl, ◌⊎◌, inl, inr, true, ◌&&◌, ◌||◌, not, List, [], ◌∷◌, arith, ltb, ◌==◌,
  if◌then◌else◌, Bool-cases,
}
use lightsql.Storage.Txn.{contains, set_add, set_delete, lowest}

pub contains-set_add :
    (id j : ℕ) (l : List ℕ) → contains (set_add id l) j ≡ ((id == j) || contains l j)
unfolding set_add
contains-set_add id j l = elim (Bool-cases (contains l id)) [
  | inl old ↦ elim (Bool-cases (id == j)) [
    | inl same ↦ let e : id ≡ j = ground arith in rw (old, ← e) (ground arith)
    | inr other ↦ ground arith
  ]
  | inr new ↦ rw new
]

pub contains-set_delete :
    (id j : ℕ) (l : List ℕ) → contains (set_delete id l) j ≡ (not (id == j) && contains l j)
unfolding set_delete
contains-set_delete id j [] = ground arith
contains-set_delete id j (x ∷ xs) = ground (arith, contains-set_delete id j xs)

pub lowest-le : (o : ℕ) (l : List ℕ) → lowest o l ≤ o
unfolding lowest
lowest-le o [] = omega arith
lowest-le o (id ∷ ids) = ground (arith, lowest-le (if ltb id o then id else o) ids)

pub lowest-le-mem : (o id : ℕ) (l : List ℕ) → contains l id ≡ true → lowest o l ≤ id
unfolding lowest
lowest-le-mem o id [] h = ground arith
lowest-le-mem o id (x ∷ xs) h =
    ground (
      arith,
      lowest-le (if ltb x o then x else o) xs,
      lowest-le-mem (if ltb x o then x else o) id xs,
    )

pub lowest_found : (o : ℕ) (l : List ℕ) → (lowest o l ≡ o) ⊎ (contains l (lowest o l) ≡ true)
unfolding lowest
lowest_found o [] = inl refl
lowest_found o (x ∷ xs) = ground (arith, lowest_found (if ltb x o then x else o) xs)
