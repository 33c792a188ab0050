-- ===== src/Catalog/Unique.antt =====
-- internal/catalog/catalog.go: the uniqueness constraints of a table, over the rows that a transaction sees. The
-- hash that `Value.Hash` and package hash/maphash give is a parameter, and so is the predicate compiler.
pub mod Linear
use lightsql.Common.{
  ℕ, Bool, true, false, ◌||◌, List, [], ◌∷◌, ◌++◌, Option, none, some, ◌==◌, if◌then◌else◌,
  get_elem?, Code, Result, ok, err, unique_violation, internal_error,
}
use lightsql.Types.Value.{Value}
use lightsql.Types.Float.{Float64}
use lightsql.Types.Compare.{equal, is_null}
use lightsql.Exec.Eval.{Row}

-- What a check that returns an `error` comes to.
pub data Checked : Type 0 where
  passed : Checked
  refused : Code → Checked
  panicked : Checked

-- `Constraint`, without its name and kind, which only messages use.
pub record Constraint : Type 0 where
  pub columns : List ℕ

-- `Index`, over the syntax of predicates
pub record Index (W : Type 0) : Type 0 where
  pub columns : List ℕ
  pub unique : Bool
  pub where_clause : Option W

-- `anyNull`; `none` is an index out of range.
unfoldable pub any_null : Row → List ℕ → Option Bool
any_null row [] = some false
any_null row (ord ∷ cols) =
    let rest = any_null row cols in
    elim (get_elem? row ord) [ none ↦ none | some v ↦ if is_null v then some true else rest ]

-- The cells that the hash and keyEqual read.
unfoldable pub cells : Row → List ℕ → Option (List Value)
cells row [] = some []
cells row (ord ∷ cols) =
    let rest = cells row cols in
    elim (get_elem? row ord) [
      | none ↦ none
      | some v ↦ elim rest [ none ↦ none | some vs ↦ some (v ∷ vs) ]
    ]

-- Whether a row takes part in a check, and by which cells.
pub data Entrant : Type 0 where
  left_out : Entrant
  key : List Value → Entrant
  no_answer : Code → Entrant
  out_of_range : Entrant

abbrev covered : Option (Row → Result Bool) → Row → Result Bool
covered none row = ok true
covered (some covers) row = covers row

unfoldable pub entrant : List ℕ → Option (Row → Result Bool) → Row → Entrant
unfolding any_null cells
entrant cols covers row = elim (any_null row cols) [
  | none ↦ out_of_range
  | some true ↦ left_out
  | some false ↦ elim (covered covers row) [
    | err c ↦ no_answer c
    | ok false ↦ left_out
    | ok true ↦ elim (cells row cols) [ none ↦ out_of_range | some k ↦ key k ]
  ]
]

abbrev and_then : Checked → Checked → Checked
and_then passed rest = rest
and_then (refused c) rest = refused c
and_then panicked rest = panicked

-- The predicate of a partial index.
unfoldable pub index_covers :
    {W : Type 0}
    → Option (W → Result (Row → Result Bool))
    → Option W
    → Result (Option (Row → Result Bool))
index_covers compiler none = ok none
index_covers compiler (some w) = elim compiler [
  | none ↦ err internal_error
  | some compile ↦ elim (compile w) [ err c ↦ err c | ok covers ↦ ok (some covers) ]
]

module _ (fl : Float64) where
  -- `keyEqual`, on the cells of the key columns.
  unfoldable pub key_equal : List Value → List Value → Bool
  key_equal (a ∷ as_) (b ∷ bs) = let rest = key_equal as_ bs in if equal fl a b then rest else false
  key_equal _ _ = true

  -- The loop over the candidates.
  unfoldable pub duplicate : List (List Value) → List Value → Bool
  unfolding key_equal
  duplicate [] k = false
  duplicate (got ∷ bucket) k = key_equal k got || duplicate bucket k

  module _ (hash : List Value → ℕ) where
    -- The loop of `checkUniqueOver`. A bucket holds the cells of the rows that its row numbers stand for.
    unfoldable pub check_rows :
        List ℕ → Option (Row → Result Bool) → (ℕ → List (List Value)) → List Row → Checked
    unfolding entrant duplicate
    check_rows cols covers buckets [] = passed
    check_rows cols covers buckets (row ∷ rows) = elim (entrant cols covers row) [
      | left_out ↦ check_rows cols covers buckets rows
      | no_answer c ↦ refused c
      | out_of_range ↦ panicked
      | key k ↦
          let rest =
            check_rows cols covers (λ h. if hash k == h then buckets h ++ k ∷ [] else buckets h)
              rows in
          if duplicate (buckets (hash k)) k then refused unique_violation else rest
    ]

    -- `checkUniqueOver`
    unfoldable pub check_unique_over : List ℕ → Option (Row → Result Bool) → List Row → Checked
    unfolding check_rows
    check_unique_over cols covers rows = check_rows cols covers (λ h. []) rows

    -- The loop of `checkUnique` over the constraints.
    unfoldable pub check_constraints : List Constraint → List Row → Checked → Checked
    unfolding check_unique_over
    check_constraints [] rows rest = rest
    check_constraints (c ∷ cs) rows rest =
        and_then (check_unique_over c.columns none rows) (check_constraints cs rows rest)

    module _ {W : Type 0} (compiler : Option (W → Result (Row → Result Bool))) where
      -- The loop of `checkUnique` over the indexes.
      unfoldable pub check_indexes : List (Index W) → List Row → Checked
      unfolding check_unique_over index_covers
      check_indexes [] rows = passed
      check_indexes (ix ∷ ixs) rows =
          let rest = check_indexes ixs rows in
          if ix.unique
          then elim (index_covers compiler ix.where_clause) [
            | err c ↦ refused c
            | ok covers ↦ and_then (check_unique_over ix.columns covers rows) rest
          ]
          else rest

      -- `checkUnique`, which `CheckConstraints` calls on the rows of the table.
      unfoldable pub check_unique : List Constraint → List (Index W) → List Row → Checked
      unfolding check_constraints check_indexes
      check_unique constraints indexes rows =
          check_constraints constraints rows (check_indexes indexes rows)
