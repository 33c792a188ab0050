-- ===== src/Catalog/References/Dangling.antt =====
-- What the check of the foreign keys tells of the rows (internal/catalog/catalog.go).
use lightsql.Common.{
  ℕ, ◌≡◌, refl, get_elem?, Bool-cases, Bool, true, false, ◌⊎◌, inl, inr, List, [], ◌∷◌, Any, All,
  Option, none, some, foreign_key_violation,
}
use lightsql.Types.Float.{Float64}
use lightsql.Types.Value.{Value}
use lightsql.Types.Compare.{equal, is_null}
use lightsql.Exec.Eval.{Row}
use lightsql.Catalog.Unique.{Checked, passed, refused, panicked, any_null}
use lightsql.Catalog.References.{
  ForeignKey, matches_key, parent_has_key, check_reference, check_references, check_foreign_keys,
}

-- The row has a null in one of the columns, or a value in each.
abbrev pub HasNull : Row → List ℕ → Type 0
HasNull row cols = Any (λ ord. (v : Value) × (get_elem? row ord ≡ some v) × (is_null v ≡ true)) cols

abbrev pub NoNull : Row → List ℕ → Type 0
NoNull row cols = All (λ ord. (v : Value) × (get_elem? row ord ≡ some v) × (is_null v ≡ false)) cols

module _ (fl : Float64) where
  -- The cells of two rows at two columns are equal, or are not.
  abbrev pub Agree : Bool → Row → ℕ → Row → ℕ → Type 0
  Agree answer row ord p p_ord =
      (x : Value) × (y : Value) × (get_elem? row ord ≡ some x)
      × (get_elem? p p_ord ≡ some y)
      × (equal fl x y ≡ answer)

  -- Each cell of the key is equal to the one of the parent.
  abbrev pub Matches : Row → List ℕ → Row → List ℕ → Type 0
  Matches row [] p p_cols = Unit
  Matches row (ord ∷ cols) p [] = ⊥
  Matches row (ord ∷ cols) p (p_ord ∷ p_cols) =
      Agree true row ord p p_ord × Matches row cols p p_cols

  -- Some cell of the key is not equal to the one of the parent.
  abbrev pub Differs : Row → List ℕ → Row → List ℕ → Type 0
  Differs row [] p p_cols = ⊥
  Differs row (ord ∷ cols) p [] = ⊥
  Differs row (ord ∷ cols) p (p_ord ∷ p_cols) =
      Agree false row ord p p_ord ⊎ Differs row cols p p_cols

  -- The row has a null in the key, or there is a parent.
  abbrev pub Refers : Row → ForeignKey → Type 0
  Refers row fk =
      HasNull row fk.columns ⊎ Any (λ p. Matches row fk.columns p fk.parent_cols) fk.parent_rows

  -- The row has no null in the key, and differs from each parent in it.
  abbrev pub Dangles : Row → ForeignKey → Type 0
  Dangles row fk =
      NoNull row fk.columns × All (λ p. Differs row fk.columns p fk.parent_cols) fk.parent_rows

  abbrev NullTold : Row → List ℕ → Option Bool → Type 0
  NullTold row cols none = Unit
  NullTold row cols (some true) = HasNull row cols
  NullTold row cols (some false) = NoNull row cols

  any_null_lem : (row : Row) (cols : List ℕ) → NullTold row cols (any_null row cols)
  unfolding any_null
  any_null_lem row [] = tt
  any_null_lem row (ord ∷ cols) = at_cell (get_elem? row ord) refl (any_null_lem row cols)
    where
      later :
          (v : Value) (r : Option Bool)
          → get_elem? row ord ≡ some v
          → is_null v ≡ false
          → NullTold row cols r
          → NullTold row (ord ∷ cols) r
      later v none e n h = tt
      later v (some true) e n h = inr h
      later v (some false) e n h = ((v, e, n), h)

      at_cell :
          (o : Option Value)
          → get_elem? row ord ≡ o
          → NullTold row cols (any_null row cols)
          → NullTold row (ord ∷ cols) (any_null row (ord ∷ cols))
      at_cell none e h = rw (any_null, e) tt
      at_cell (some v) e h = elim (Bool-cases (is_null v)) [
        | inl n ↦ rw (any_null, e, n) (inl (v, e, n))
        | inr n ↦ rw (any_null, e, n) (later v (any_null row cols) e n h)
      ]

  abbrev KeyTold : Row → List ℕ → Row → List ℕ → Option Bool → Type 0
  KeyTold row cols p p_cols none = Unit
  KeyTold row cols p p_cols (some true) = Matches row cols p p_cols
  KeyTold row cols p p_cols (some false) = Differs row cols p p_cols

  matches_key_lem :
      (row : Row) (cols : List ℕ) (p : Row) (p_cols : List ℕ)
      → KeyTold row cols p p_cols (matches_key fl row cols p p_cols)
  unfolding matches_key
  matches_key_lem row [] p p_cols = tt
  matches_key_lem row (ord ∷ cols) p [] = tt
  matches_key_lem row (ord ∷ cols) p (p_ord ∷ p_cols) =
      at_cells (get_elem? row ord) refl (get_elem? p p_ord) refl (matches_key_lem row cols p p_cols)
    where
      later :
          (x y : Value) (r : Option Bool)
          → get_elem? row ord ≡ some x
          → get_elem? p p_ord ≡ some y
          → equal fl x y ≡ true
          → KeyTold row cols p p_cols r
          → KeyTold row (ord ∷ cols) p (p_ord ∷ p_cols) r
      later x y none e f q h = tt
      later x y (some true) e f q h = ((x, y, e, f, q), h)
      later x y (some false) e f q h = inr h

      at_cells :
          (o : Option Value)
          → get_elem? row ord ≡ o
          → (q : Option Value) → get_elem? p p_ord ≡ q
          → KeyTold row cols p p_cols (matches_key fl row cols p p_cols)
          → KeyTold row
              (ord ∷ cols)
              p
              (p_ord ∷ p_cols)
              (matches_key fl row (ord ∷ cols) p (p_ord ∷ p_cols))
      at_cells none e q f h = rw (matches_key, e) tt
      at_cells (some x) e none f h = rw (matches_key, e, f) tt
      at_cells (some x) e (some y) f h = elim (Bool-cases (equal fl x y)) [
        | inl q ↦ rw (matches_key, e, f, q) (later x y (matches_key fl row cols p p_cols) e f q h)
        | inr q ↦ rw (matches_key, e, f, q) (inl (x, y, e, f, q))
      ]

  -- What a check comes to, where `Good` is what it asks for and `Bad` what it refuses.
  abbrev pub Told : Type 0 → Type 0 → Checked → Type 0
  Told Good Bad passed = Good
  Told Good Bad (refused c) = (c ≡ foreign_key_violation) × Bad
  Told Good Bad panicked = Unit

  abbrev Sought : ForeignKey → List Row → Row → Option Bool → Type 0
  Sought fk prows row none = Unit
  Sought fk prows row (some true) = Any (λ p. Matches row fk.columns p fk.parent_cols) prows
  Sought fk prows row (some false) = All (λ p. Differs row fk.columns p fk.parent_cols) prows

  parent_has_key_lem :
      (fk : ForeignKey) (prows : List Row) (row : Row)
      → Sought fk prows row (parent_has_key fl fk prows row)
  unfolding parent_has_key
  parent_has_key_lem fk [] row = tt
  parent_has_key_lem fk (p ∷ ps) row =
      go (matches_key fl row fk.columns p fk.parent_cols) refl (parent_has_key fl fk ps row) refl
        (parent_has_key_lem fk ps row) (matches_key_lem row fk.columns p fk.parent_cols)
    where
      go :
          (m : Option Bool)
          → matches_key fl row fk.columns p fk.parent_cols ≡ m
          → (r : Option Bool) → parent_has_key fl fk ps row ≡ r
          → Sought fk ps row r
          → KeyTold row fk.columns p fk.parent_cols m
          → Sought fk (p ∷ ps) row (parent_has_key fl fk (p ∷ ps) row)
      go none h r k s t = rw (parent_has_key, h) tt
      go (some true) h r k s t = rw (parent_has_key, h) (inl t)
      go (some false) h none k s t = rw (parent_has_key, h, k) tt
      go (some false) h (some true) k s t = rw (parent_has_key, h, k) (inr s)
      go (some false) h (some false) k s t = rw (parent_has_key, h, k) (t, s)

  check_reference_lem :
      (fk : ForeignKey) (row : Row)
      → Told (Refers row fk) (Dangles row fk) (check_reference fl fk row)
  unfolding check_reference
  check_reference_lem fk row =
      go (any_null row fk.columns) refl (parent_has_key fl fk fk.parent_rows row) refl
        (parent_has_key_lem fk fk.parent_rows row) (any_null_lem row fk.columns)
    where
      go :
          (n : Option Bool)
          → any_null row fk.columns ≡ n
          → (r : Option Bool) → parent_has_key fl fk fk.parent_rows row ≡ r
          → Sought fk fk.parent_rows row r
          → NullTold row fk.columns n
          → Told (Refers row fk) (Dangles row fk) (check_reference fl fk row)
      go none h r k s t = rw (check_reference, h) tt
      go (some true) h r k s t = rw (check_reference, h) (inl t)
      go (some false) h none k s t = rw (check_reference, h, k) tt
      go (some false) h (some true) k s t = rw (check_reference, h, k) (inr s)
      go (some false) h (some false) k s t = rw (check_reference, h, k) (refl, (t, s))

  -- One check after the other.
  Told-both :
      (A B C D E F : Type 0) (c d : Checked)
      → Told A B c
      → Told C D d
      → (A → C → E)
      → (B → F)
      → (D → F)
      → Told E F (elim c [ passed ↦ d | refused r ↦ refused r | panicked ↦ panicked ])
  Told-both A B C D E F passed passed s t f g h = f s t
  Told-both A B C D E F passed (refused r) s t f g h = (t.0, h t.1)
  Told-both A B C D E F passed panicked s t f g h = tt
  Told-both A B C D E F (refused r) d s t f g h = (s.0, g s.1)
  Told-both A B C D E F panicked d s t f g h = tt

  check_references_lem :
      (fks : List ForeignKey) (row : Row)
      → Told (All (Refers row) fks) (Any (Dangles row) fks) (check_references fl fks row)
  unfolding check_references
  check_references_lem [] row = tt
  check_references_lem (fk ∷ fks) row =
      Told-both (Refers row fk) (Dangles row fk) (All (Refers row) fks) (Any (Dangles row) fks)
        (All (Refers row) (fk ∷ fks)) (Any (Dangles row) (fk ∷ fks)) (check_reference fl fk row)
        (check_references fl fks row) (check_reference_lem fk row) (check_references_lem fks row)
        (λ a b. (a, b)) inl inr

  -- Foreign keys. The check passes only where each row has, for each foreign key, a null in one of its columns or
  -- a row of the parent with an equal value in each of the columns that they are matched on; and an error
  -- that it reports is a foreign key violation, for a row without a null in a key that differs in some
  -- column from every row of the parent.
  pub check_foreign_keys_lem :
      (fks : List ForeignKey) (rows : List Row)
      → Told
          (All (λ row. All (Refers row) fks) rows)
          (Any (λ row. Any (Dangles row) fks) rows)
          (check_foreign_keys fl fks rows)
  unfolding check_foreign_keys
  check_foreign_keys_lem fks [] = tt
  check_foreign_keys_lem fks (row ∷ rows) =
      Told-both (All (Refers row) fks) (Any (Dangles row) fks) (All (λ r. All (Refers r) fks) rows)
        (Any (λ r. Any (Dangles r) fks) rows) (All (λ r. All (Refers r) fks) (row ∷ rows))
        (Any (λ r. Any (Dangles r) fks) (row ∷ rows)) (check_references fl fks row)
        (check_foreign_keys fl fks rows) (check_references_lem fks row)
        (check_foreign_keys_lem fks rows) (λ a b. (a, b)) inl inr
