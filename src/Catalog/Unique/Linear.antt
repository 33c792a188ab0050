-- ===== src/Catalog/Unique/Linear.antt =====
-- The check by buckets is the check by all pairs (internal/catalog/catalog.go).
use lightsql.Common.{
  ℕ, ◌≡◌, refl, sym, ap, ◌∙◌, Bool, true, false, List, [], ◌∷◌, ◌++◌, keep, All, All-append, Option,
  ◌==◌, if◌then◌else◌, Bool-cases, inl, inr, arith, Result, unique_violation,
}
use lightsql.Types.Value.{Value}
use lightsql.Types.Float.{Float64}
use lightsql.Exec.Eval.{Row}
use lightsql.Catalog.Unique.{
  Checked, passed, refused, panicked, Entrant, left_out, key, no_answer, out_of_range, entrant,
  key_equal, duplicate, check_rows, check_unique_over,
}

-- Every row against all rows before it.
unfoldable pub check_pairs :
    Float64 → List ℕ → Option (Row → Result Bool) → List (List Value) → List Row → Checked
check_pairs fl cols covers seen [] = passed
check_pairs fl cols covers seen (row ∷ rows) = elim (entrant cols covers row) [
  | left_out ↦ check_pairs fl cols covers seen rows
  | no_answer c ↦ refused c
  | out_of_range ↦ panicked
  | key k ↦
      let rest = check_pairs fl cols covers (seen ++ k ∷ []) rows in
      if duplicate fl seen k then refused unique_violation else rest
]

-- The cells of the row, where it takes part, are such as `P` asks for.
abbrev pub Enters : (List Value → Type 0) → Entrant → Type 0
Enters P (key k) = P k
Enters P _ = Unit

-- Equal keys among those that `P` holds of have one hash.
abbrev pub HashRespects : Float64 → (List Value → ℕ) → (List Value → Type 0) → Type 0
HashRespects fl hash P = (a b : List Value) → P a → P b → key_equal fl a b ≡ true → hash a ≡ hash b

module _ (fl : Float64) (hash : List Value → ℕ) (P : List Value → Type 0)
    (law : HashRespects fl hash P) where
  abbrev bucket : List (List Value) → ℕ → List (List Value)
  bucket seen h = keep (λ got. hash got == h) seen

  no_match :
      (got k : List Value) → P got → P k → hash got == hash k ≡ false → key_equal fl k got ≡ false
  no_match got k q p other = ground (arith, law k got p q)

  duplicate-bucket :
      (seen : List (List Value)) (k : List Value)
      → All P seen
      → P k
      → duplicate fl (bucket seen (hash k)) k ≡ duplicate fl seen k
  unfolding duplicate keep
  duplicate-bucket [] k ps p = refl
  duplicate-bucket (got ∷ seen) k (q, ps) p = elim (Bool-cases (hash got == hash k)) [
    | inl same ↦ rw (same, duplicate-bucket seen k ps p) refl
    | inr other ↦ rw (other, no_match got k q p other) (duplicate-bucket seen k ps p)
  ]

  bucket-append :
      (seen : List (List Value)) (k : List Value) (h : ℕ)
      → bucket (seen ++ k ∷ []) h ≡ (if hash k == h then bucket seen h ++ k ∷ [] else bucket seen h)
  unfolding keep
  bucket-append [] k h = refl
  bucket-append (got ∷ seen) k h =
      rw (bucket-append seen k h)
        (either (hash got == h) (hash k == h) got (bucket seen h) (k ∷ []))
    where
      either :
          (b c : Bool) (x : List Value) (xs ys : List (List Value))
          → (if b then x ∷ (if c then xs ++ ys else xs) else (if c then xs ++ ys else xs))
            ≡ (if c then (if b then x ∷ xs else xs) ++ ys else (if b then x ∷ xs else xs))
      either true true x xs ys = refl
      either true false x xs ys = refl
      either false true x xs ys = refl
      either false false x xs ys = refl

  next-bucket :
      (buckets : ℕ → List (List Value)) (seen : List (List Value))
      → ((h : ℕ) → buckets h ≡ bucket seen h)
      → (k : List Value) (n : ℕ)
      → (if hash k == n then buckets n ++ k ∷ [] else buckets n) ≡ bucket (seen ++ k ∷ []) n
  next-bucket buckets seen same k n =
      ap (λ b. if hash k == n then b ++ k ∷ [] else b) (same n) ∙ sym (bucket-append seen k n)

  rows_lem :
      (cols : List ℕ) (covers : Option (Row → Result Bool)) (buckets : ℕ → List (List Value))
      (seen : List (List Value)) (rows : List Row)
      → ((h : ℕ) → buckets h ≡ bucket seen h)
      → All P seen
      → All (λ row. Enters P (entrant cols covers row)) rows
      → check_rows fl hash cols covers buckets rows ≡ check_pairs fl cols covers seen rows
  unfolding check_rows check_pairs
  rows_lem cols covers buckets seen [] same ps es = refl
  rows_lem cols covers buckets seen (row ∷ rows) same ps (e, es) =
      go (entrant cols covers row) refl e (λ bs ss h qs. rows_lem cols covers bs ss rows h qs es)
    where
      go :
          (x : Entrant)
          → entrant cols covers row ≡ x
          → Enters P x
          → ((bs : ℕ → List (List Value)) (ss : List (List Value))
              → ((h : ℕ) → bs h ≡ bucket ss h)
              → All P ss
              → check_rows fl hash cols covers bs rows ≡ check_pairs fl cols covers ss rows)
          → check_rows fl hash cols covers buckets (row ∷ rows)
            ≡ check_pairs fl cols covers seen (row ∷ rows)
      go left_out h e ih = rw (check_rows, check_pairs, h) (ih buckets seen same ps)
      go (no_answer c) h e ih = rw (check_rows, check_pairs, h) refl
      go out_of_range h e ih = rw (check_rows, check_pairs, h) refl
      go (key k) h e ih =
          rw
            (
              check_rows,
              check_pairs,
              h,
              same (hash k),
              duplicate-bucket seen k ps e,
              ih (λ n. if hash k == n then buckets n ++ k ∷ [] else buckets n) (seen ++ k ∷ [])
                  (next-bucket buckets seen same k) (All-append P seen (k ∷ []) ps (e, tt)),
            )
            refl

  -- The check by hash buckets comes, on every list of rows, to what the comparison of each row with
  -- all rows before it comes to, errors and panics included: for keys of the rows such that equal ones
  -- have one hash, whatever other keys have that hash.
  pub check_unique_over_lem :
      (cols : List ℕ) (covers : Option (Row → Result Bool)) (rows : List Row)
      → All (λ row. Enters P (entrant cols covers row)) rows
      → check_unique_over fl hash cols covers rows ≡ check_pairs fl cols covers [] rows
  unfolding check_unique_over
  check_unique_over_lem cols covers rows es =
      rows_lem cols covers (λ h. []) [] rows (λ h. unfold keep in refl) tt es
