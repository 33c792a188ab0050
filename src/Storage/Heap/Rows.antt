-- ===== src/Storage/Heap/Rows.antt =====
-- The rows that a scan shows, and how the writes of the heap change the list of versions.
use lightsql.Common.{
  ℕ, ◌≡◌, refl, Bool, false, some, List, [], ◌∷◌, ◌++◌, map, arith, keep, get_elem?,
}
use lightsql.Types.Value.{Value}
use lightsql.Storage.Heap.{Version, stamp}

-- A scan hands out pointers; what a reader takes from them is the identity and the values.
abbrev pub row : Version → ℕ × List Value
row v = (v.id, v.vals)

abbrev pub rows : (Version → Bool) → List Version → List (ℕ × List Value)
rows p vs = map row (keep p vs)

pub keep-append {ℓ} :
    {A : Type ℓ} (p : A → Bool) (xs ys : List A) → keep p (xs ++ ys) ≡ keep p xs ++ keep p ys
unfolding keep
keep-append p [] ys = refl
keep-append p (x ∷ xs) ys = ground (arith, keep-append p xs ys)

pub rows-cong :
    (p q : Version → Bool) (vs : List Version) → ((v : Version) → p v ≡ q v) → rows p vs ≡ rows q vs
unfolding keep
rows-cong p q [] h = refl
rows-cong p q (v ∷ vs) h = ground (arith, h v, rows-cong p q vs h)

-- A version that the test drops may be appended.
pub rows-append_dropped :
    (p : Version → Bool) (vs : List Version) (v : Version)
    → p v ≡ false
    → rows p (vs ++ v ∷ []) ≡ rows p vs
unfolding keep
rows-append_dropped p [] v h = ground arith
rows-append_dropped p (x ∷ xs) v h = ground (arith, rows-append_dropped p xs v h)

-- A stamp that the test does not see leaves the rows alone.
pub rows-stamp :
    (p : Version → Bool) (tx i : ℕ) (vs : List Version)
    → ((v : Version) → get_elem? vs i ≡ some v → p (record v { xmax = tx }) ≡ p v)
    → rows p (stamp tx i vs) ≡ rows p vs
unfolding keep stamp
rows-stamp p tx i [] h = refl
rows-stamp p tx ℕ.zero (v ∷ vs) h = ground (arith, h v refl)
rows-stamp p tx (ℕ.suc i) (v ∷ vs) h = ground (arith, rows-stamp p tx i vs h)

-- Dropping what a later test drops anyway changes nothing.
pub keep-keep {ℓ} :
    {A : Type ℓ} (p q : A → Bool) (xs : List A)
    → ((x : A) → q x ≡ false → p x ≡ false)
    → keep p (keep q xs) ≡ keep p xs
unfolding keep
keep-keep p q [] h = refl
keep-keep p q (x ∷ xs) h = ground (arith, h x, keep-keep p q xs h)
