-- ===== src/Exec/Sort/Keys.antt =====
-- ORDER BY sorts rows by columns, stably (internal/exec/exec.go).
use Prim.Native.Nat.{Ordering, lt, eq, gt}
use lightsql.Common.{Bool, true, false, ◌⊎◌, ◌≡◌, List, [], ◌∷◌, All}
use lightsql.Types.Float.{Float64}
use lightsql.Types.Value.{Value}
use lightsql.Types.Compare.{compare, is_null}
use lightsql.Exec.Sort.{SortKey, Entry}
use lightsql.Exec.Sort.Terms.{Column, CellsOf}

abbrev then_by : Ordering → Ordering → Ordering
then_by lt r = lt
then_by gt r = gt
then_by eq r = r

module _ (fl : Float64) where
  -- The keys of an entry are cells of the columns.
  abbrev pub Keyed : List Column → Entry → Type 0
  Keyed cs e = CellsOf cs e.keys

  -- What the direction and the place of nulls ask of two cells: the first stands before the second.
  pub data Before (desc nulls_first : Bool) (a b : Value) : Type 0 where
    ascending :
        desc ≡ false
        → is_null a ≡ false
        → is_null b ≡ false
        → compare fl a b ≡ lt
        → Before desc nulls_first a b
    descending :
        desc ≡ true
        → is_null a ≡ false
        → is_null b ≡ false
        → compare fl a b ≡ gt
        → Before desc nulls_first a b
    null_first :
        nulls_first ≡ true → is_null a ≡ true → is_null b ≡ false → Before desc nulls_first a b
    null_last :
        nulls_first ≡ false → is_null a ≡ false → is_null b ≡ true → Before desc nulls_first a b

  -- Two cells are null, or equal.
  pub data Same (a b : Value) : Type 0 where
    both_null : is_null a ≡ true → is_null b ≡ true → Same a b
    equal_cells : is_null a ≡ false → is_null b ≡ false → compare fl a b ≡ eq → Same a b

  -- The first terms are the same, and the next one puts the first keys before the second; or all are the same.
  abbrev pub InOrder : List SortKey → List Value → List Value → Type 0
  InOrder (k ∷ ks) (a ∷ as_) (b ∷ bs) =
      Before k.desc k.nulls_first a b ⊎ (Same a b × InOrder ks as_ bs)
  InOrder _ _ _ = Unit

  -- Each row is in order with all behind it.
  abbrev pub AllInOrder : List SortKey → List Entry → Type 0
  AllInOrder ks [] = Unit
  AllInOrder ks (x ∷ xs) = All (λ y. InOrder ks x.keys y.keys) xs × AllInOrder ks xs

  abbrev TermTold : Bool → Bool → Value → Value → Ordering → Type 0
  TermTold desc nulls_first a b lt = Before desc nulls_first a b
  TermTold desc nulls_first a b eq = Same a b
  TermTold desc nulls_first a b gt = Unit
