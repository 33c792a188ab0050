-- ===== src/Engine/Recover/Rows.antt =====
-- Rows in the order of their ids, read from the log and placed (internal/engine/persist.go).
use mathlib.Core.List.{map-append}
use lightsql.Common.{
  ℕ, ◌<◌, ◌≡◌, refl, sym, ap, ◌∙◌, Bool, true, false, List, [], ◌∷◌, ◌++◌, map, All, if◌then◌else◌,
  append_assoc, append-nil, arith,
}
use lightsql.Types.Value.{Value}
use lightsql.Storage.Heap.{Heap, Version, load}
use lightsql.Engine.Recover.{Held, put, by_id, place_in, load_all}

-- Row ids, from the least to the greatest, without a repetition.
abbrev pub IsAscending : Held → Type 0
IsAscending [] = Unit
IsAscending (x ∷ xs) = All (λ y. x.0 < y.0) xs × IsAscending xs

-- Every row of the first list has an id below those of the second.
abbrev pub Below : Held → Held → Type 0
Below held rows = All (λ x. All (λ y. x.0 < y.0) rows) held

put_new :
    (id : ℕ) (vals : List Value) (held : Held)
    → All (λ x. x.0 < id) held
    → put id vals held ≡ held ++ (id, vals) ∷ []
unfolding put
put_new id vals [] h = refl
put_new id vals ((i, v) ∷ held) h = ground (arith, put_new id vals held h.1)

abbrev pub fill : Held → Held → Held
fill held [] = held
fill held ((id, vals) ∷ rows) = fill (put id vals held) rows

Below-first :
    (x : ℕ × List Value) (rows held : Held) → Below held (x ∷ rows) → All (λ y. y.0 < x.0) held
Below-first x rows [] h = tt
Below-first x rows (y ∷ held) h = (h.0.0, Below-first x rows held h.1)

Below-append :
    (x : ℕ × List Value) (rows held : Held)
    → Below held (x ∷ rows)
    → All (λ y. x.0 < y.0) rows
    → Below (held ++ x ∷ []) rows
Below-append x rows [] h k = (k, tt)
Below-append x rows (y ∷ held) h k = (h.0.1, Below-append x rows held h.1 k)

pub fill-append :
    (held rows : Held) → Below held rows → IsAscending rows → fill held rows ≡ held ++ rows
fill-append held [] b a = sym (append-nil held)
fill-append held ((id, vals) ∷ rows) b a =
    ap (λ h. fill h rows) (put_new id vals held (Below-first (id, vals) rows held b))
    ∙ fill-append (held ++ (id, vals) ∷ []) rows (Below-append (id, vals) rows held b a.0) a.1
    ∙ append_assoc held ((id, vals) ∷ []) rows

pub by_id-IsAscending : (rows : Held) → IsAscending rows → by_id rows ≡ rows
unfolding by_id
by_id-IsAscending [] a = refl
by_id-IsAscending (x ∷ rows) a = ap (place_in x) (by_id-IsAscending rows a.1) ∙ first x rows a.0
  where
    first :
        (x : ℕ × List Value) (rows : Held) → All (λ y. x.0 < y.0) rows → place_in x rows ≡ x ∷ rows
    first (id, vals) [] h = refl
    first (id, vals) ((i, v) ∷ rows) h = ground (arith, h.0)

-- The id and the values of a version.
abbrev pub row_of : Version → ℕ × List Value
row_of v = (v.id, v.vals)

pub either_way : (b : Bool) (x : Held) → x ≡ (if b then x else x)
either_way true x = refl
either_way false x = refl

pub load_all-rows :
    (boot : ℕ) (rows : Held) (h : Heap)
    → map row_of (load_all boot rows h).versions ≡ map row_of h.versions ++ rows
unfolding load_all load
load_all-rows boot [] h = sym (append-nil (map row_of h.versions))
load_all-rows boot ((id, vals) ∷ rows) h =
    load_all-rows boot rows (load boot id vals h) ∙ simp (map-append, append_assoc)
