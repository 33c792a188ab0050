-- ===== src/Exec/Conflict/Insert.antt =====
-- A row without a conflict does not break a uniqueness constraint (internal/exec/conflict.go, internal/catalog/catalog.go).
use lightsql.Common.{
  ℕ, ◌≡◌, ◌≢◌, ◌⊎◌, refl, sym, ap, ◌∙◌, false, List, [], ◌∷◌, ◌++◌, map, All, none, some, inl, inr,
  arith, Code, All-append, append_assoc, append-nil,
}
use mathlib.Core.Path.{subst}
use lightsql.Types.Value.{Value}
use lightsql.Types.Float.{Float64}
use lightsql.Exec.Eval.{Row}
use lightsql.Catalog.Unique.{
  passed, Entrant, left_out, key, no_answer, out_of_range, entrant, key_equal, duplicate,
  check_unique_over,
}
use lightsql.Catalog.Unique.Linear.{check_pairs, Enters, HashRespects, check_unique_over_lem}
use lightsql.Exec.Conflict.{find_version}
use lightsql.Exec.Conflict.Search.{keys, entrant-key, duplicate-keys}

keys_out :
    (cols : List ℕ) (r : Row) (rows : List Row)
    → entrant cols none r ≡ left_out
    → keys cols (r ∷ rows) ≡ keys cols rows
unfolding keys
keys_out cols r rows e = rw (keys, e) refl

keys_in :
    (cols : List ℕ) (r : Row) (rows : List Row) (k : List Value)
    → entrant cols none r ≡ key k
    → keys cols (r ∷ rows) ≡ k ∷ keys cols rows
unfolding keys
keys_in cols r rows k e = rw (keys, e) refl

module _ (fl : Float64) where
  module _ (cols : List ℕ) (seen : List (List Value)) (r : Row) where
    pairs_out :
        (rs : List Row)
        → entrant cols none r ≡ left_out
        → check_pairs fl cols none seen (r ∷ rs) ≡ check_pairs fl cols none seen rs
    unfolding check_pairs
    pairs_out rs e = rw (check_pairs, e) refl

    pairs_stop :
        (rs : List Row)
        → ((d : Code) × (entrant cols none r ≡ no_answer d)) ⊎ (entrant cols none r ≡ out_of_range)
        → check_pairs fl cols none seen (r ∷ rs) ≢ passed
    unfolding check_pairs
    pairs_stop rs (inl (d, e)) = rw (check_pairs, e) (grind arith)
    pairs_stop rs (inr e) = rw (check_pairs, e) (grind arith)

    pairs_new :
        (rs : List Row) (k : List Value)
        → entrant cols none r ≡ key k
        → check_pairs fl cols none seen (r ∷ rs) ≡ passed
        → duplicate fl seen k ≡ false
    unfolding check_pairs
    pairs_new rs k e h = ground (arith, e, h)

    pairs_key :
        (rs : List Row) (k : List Value)
        → entrant cols none r ≡ key k
        → duplicate fl seen k ≡ false
        → check_pairs fl cols none seen (r ∷ rs) ≡ check_pairs fl cols none (seen ++ k ∷ []) rs
    unfolding check_pairs
    pairs_key rs k e d = rw (check_pairs, e, d) refl

  check_pairs-append :
      (cols : List ℕ) (seen : List (List Value)) (rows : List Row) (row : Row)
      → check_pairs fl cols none seen rows ≡ passed
      → check_pairs fl cols none seen (rows ++ row ∷ [])
        ≡ check_pairs fl cols none (seen ++ keys cols rows) (row ∷ [])
  unfolding check_pairs keys
  check_pairs-append cols seen [] row h =
      ap (λ xs. check_pairs fl cols none xs (row ∷ [])) (sym (append-nil seen))
  check_pairs-append cols seen (r ∷ rows) row h =
      go (entrant cols none r) refl (λ s. check_pairs-append cols s rows row)
    where
      go :
          (x : Entrant)
          → entrant cols none r ≡ x
          → ((s : List (List Value))
              → check_pairs fl cols none s rows ≡ passed
              → check_pairs fl cols none s (rows ++ row ∷ [])
                ≡ check_pairs fl cols none (s ++ keys cols rows) (row ∷ []))
          → check_pairs fl cols none seen (r ∷ rows ++ row ∷ [])
            ≡ check_pairs fl cols none (seen ++ keys cols (r ∷ rows)) (row ∷ [])
      go left_out e ih =
          let same = pairs_out cols seen r in
          same (rows ++ row ∷ []) e
          ∙ ih seen (sym (same rows e) ∙ h)
          ∙ ap (λ ks. check_pairs fl cols none (seen ++ ks) (row ∷ []))
              (sym (keys_out cols r rows e))
      go (no_answer d) e ih = elim (pairs_stop cols seen r rows (inl (d, e)) h) [ ]
      go out_of_range e ih = elim (pairs_stop cols seen r rows (inr e) h) [ ]
      go (key k) e ih =
          let new = pairs_new cols seen r rows k e h in
          let same = (λ (rs : List Row). pairs_key cols seen r rs k e new) in
          same (rows ++ row ∷ [])
          ∙ ih (seen ++ k ∷ []) (sym (same rows) ∙ h)
          ∙ ap (λ ks. check_pairs fl cols none ks (row ∷ []))
              (append_assoc seen (k ∷ []) (keys cols rows)
                ∙ ap (λ ks. seen ++ ks) (sym (keys_in cols r rows k e)))

  -- The row that no version collides with on the columns of a uniqueness constraint can be inserted: a check
  -- of the constraint that passed before still passes with the row behind the others. Equality of the
  -- keys of the rows is to be symmetric and to respect the hash.
  pub no_conflict-insert :
      {V : Type 0} (hash : List Value → ℕ) (P : List Value → Type 0) (cols : List ℕ)
      (versions : List (V × Row)) (row : Row) (k : List Value)
      → HashRespects fl hash P
      → ((a b : List Value) → P a → P b → key_equal fl a b ≡ key_equal fl b a)
      → All (λ r. Enters P (entrant cols none r)) (map (λ w. w.1) versions)
      → entrant cols none row ≡ key k
      → P k
      → find_version fl cols versions row ≡ some none
      → check_unique_over fl hash cols none (map (λ w. w.1) versions) ≡ passed
      → check_unique_over fl hash cols none (map (λ w. w.1) versions ++ row ∷ []) ≡ passed
  no_conflict-insert hash P cols versions row k law symm ps e p found before =
      let rows = map (λ w. w.1) versions in
      let pairs = check_unique_over_lem fl hash P law cols none in
      pairs (rows ++ row ∷ []) (All-append _ rows (row ∷ []) ps (subst (Enters P) (sym e) p, tt))
      ∙ check_pairs-append cols [] rows row (sym (pairs rows ps) ∙ before)
      ∙ pairs_key cols (keys cols rows) row [] k e
          (duplicate-keys fl P cols versions row k symm p ps (entrant-key cols row k e).1 found)
      ∙ (unfold check_pairs in refl)
