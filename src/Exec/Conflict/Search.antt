-- ===== src/Exec/Conflict/Search.antt =====
-- A search for a conflict that finds none (internal/exec/conflict.go).
use lightsql.Common.{
  ℕ, ◌≡◌, refl, Bool, true, false, List, [], ◌∷◌, map, All, Option, none, some, get_elem?, arith,
}
use lightsql.Types.Value.{Value}
use lightsql.Types.Float.{Float64}
use lightsql.Exec.Eval.{Row}
use lightsql.Catalog.Unique.{
  Entrant, left_out, key, no_answer, out_of_range, entrant, any_null, cells, key_equal, duplicate,
}
use lightsql.Catalog.Unique.Linear.{Enters}
use lightsql.Exec.Conflict.{same_at, find_version}

-- The keys of the rows that take part.
unfoldable pub keys : List ℕ → List Row → List (List Value)
keys cols [] = []
keys cols (row ∷ rows) =
    let rest = keys cols rows in elim (entrant cols none row) [ key k ↦ k ∷ rest | _ ↦ rest ]

-- What the key of a row tells of its null test and its cells.
pub entrant-key :
    (cols : List ℕ) (row : Row) (k : List Value)
    → entrant cols none row ≡ key k
    → (any_null row cols ≡ some false) × (cells row cols ≡ some k)
unfolding entrant
entrant-key cols row k e = go (any_null row cols) refl (cells row cols) refl
  where
    go :
        (n : Option Bool)
        → any_null row cols ≡ n
        → (c : Option (List Value)) → cells row cols ≡ c
        → (any_null row cols ≡ some false) × (cells row cols ≡ some k)
    go none h c i = ground (arith, e, h, i)
    go (some true) h c i = ground (arith, e, h, i)
    go (some false) h none i = ground (arith, e, h, i)
    go (some false) h (some x) i = ground (arith, e, h, i)

module _ (fl : Float64) where
  pub same_at-cells :
      (a b : Row) (cols : List ℕ) (x y : List Value)
      → cells a cols ≡ some x
      → cells b cols ≡ some y
      → same_at fl a b cols ≡ some (key_equal fl x y)
  unfolding same_at cells key_equal
  same_at-cells a b [] x y h k = ground (arith, h, k)
  same_at-cells a b (ord ∷ cols) x y h k =
      go (get_elem? a ord) refl (get_elem? b ord) refl (cells a cols) refl (cells b cols) refl
        (same_at-cells a b cols)
    where
      go :
          (p : Option Value)
          → get_elem? a ord ≡ p
          → (q : Option Value) → get_elem? b ord ≡ q
          → (r : Option (List Value)) → cells a cols ≡ r
          → (s : Option (List Value)) → cells b cols ≡ s
          → ((u v : List Value)
              → cells a cols ≡ some u
              → cells b cols ≡ some v
              → same_at fl a b cols ≡ some (key_equal fl u v))
          → same_at fl a b (ord ∷ cols) ≡ some (key_equal fl x y)
      go (some u) hp (some v) hq (some us) hr (some vs) hs ih =
          ground (arith, h, k, hp, hq, hr, hs, ih us vs hr hs)
      go none hp q hq r hr s hs ih = ground (arith, h, k, hp, hq, hr, hs)
      go (some u) hp none hq r hr s hs ih = ground (arith, h, k, hp, hq, hr, hs)
      go (some u) hp (some v) hq none hr s hs ih = ground (arith, h, k, hp, hq, hr, hs)
      go (some u) hp (some v) hq (some us) hr none hs ih = ground (arith, h, k, hp, hq, hr, hs)

  module _ {V : Type 0} where
    find_version-rest :
        (cols : List ℕ) (v : V) (vals : Row) (versions : List (V × Row)) (row : Row)
        → find_version fl cols ((v, vals) ∷ versions) row ≡ some none
        → find_version fl cols versions row ≡ some none
    unfolding find_version
    find_version-rest cols v vals versions row e = ground (arith, e)

    find_version-same :
        (cols : List ℕ) (v : V) (vals : Row) (versions : List (V × Row)) (row : Row)
        → find_version fl cols ((v, vals) ∷ versions) row ≡ some none
        → any_null vals cols ≡ some false
        → same_at fl vals row cols ≡ some false
    unfolding find_version
    find_version-same cols v vals versions row e h = ground (arith, e, h)

    pub duplicate-keys :
        (P : List Value → Type 0) (cols : List ℕ) (versions : List (V × Row)) (row : Row)
        (k : List Value)
        → ((a b : List Value) → P a → P b → key_equal fl a b ≡ key_equal fl b a)
        → P k
        → All (λ r. Enters P (entrant cols none r)) (map (λ w. w.1) versions)
        → cells row cols ≡ some k
        → find_version fl cols versions row ≡ some none
        → duplicate fl (keys cols (map (λ w. w.1) versions)) k ≡ false
    unfolding duplicate keys
    duplicate-keys P cols [] row k symm p ps c e = refl
    duplicate-keys P cols ((v, vals) ∷ versions) row k symm p (q, ps) c e =
        go (entrant cols none vals) refl q (
          duplicate-keys P cols versions row k symm p ps c
            (find_version-rest cols v vals versions row e))
      where
        go :
            (x : Entrant)
            → entrant cols none vals ≡ x
            → Enters P x
            → duplicate fl (keys cols (map (λ w. w.1) versions)) k ≡ false
            → duplicate fl (keys cols (vals ∷ map (λ w. w.1) versions)) k ≡ false
        go left_out h q ih = rw (keys, h) ih
        go (no_answer d) h q ih = rw (keys, h) ih
        go out_of_range h q ih = rw (keys, h) ih
        go (key g) h q ih =
            let (n, cs) = entrant-key cols vals g h in
            rw (keys, h)
              (ground (
                arith,
                ih,
                find_version-same cols v vals versions row e n,
                same_at-cells vals row cols g k cs c,
                symm k g p q,
              ))
