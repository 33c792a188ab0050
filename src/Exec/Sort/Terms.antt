-- ===== src/Exec/Sort/Terms.antt =====
-- The order of one ORDER BY term, on the cells of a column (internal/exec/exec.go).
use Prim.Native.Nat.{Ordering, lt, eq, gt}
use lightsql.Common.{
  Bool, true, false, ◌&&◌, ◌≡◌, ◌≢◌, inl, inr, refl, sym, ap, ◌∙◌, List, [], ◌∷◌, if◌then◌else◌,
  arith,
}
use lightsql.Types.Float.{Float64}
use lightsql.Types.Value.{Value, Kind, is_numeric}
use lightsql.Types.Compare.{compare, is_null}
use lightsql.Types.Compare.Orders.{flip}
use lightsql.Types.Compare.Order.{Plain, Exact, compare_antisymmetric, compare_transitive}
use lightsql.Exec.Sort.{compare_sort_key}
use lightsql.Exec.Sort.Stable.{OrdersOn}

-- A column of a kind that is not a number, or of exact numbers of either kind; null may be in both.
pub data Column : Type 0 where
  plain_column : (k : Kind) → is_numeric k ≡ false → Column
  exact_column : Column

abbrev pub InColumn : Column → Value → Type 0
InColumn (plain_column k h) v = Plain k v
InColumn exact_column v = Exact v

abbrev pub CellsOf : List Column → List Value → Type 0
CellsOf [] [] = Unit
CellsOf (c ∷ cs) (v ∷ vs) = InColumn c v × CellsOf cs vs
CellsOf _ _ = ⊥

abbrev with_nulls : Bool → Bool → Bool → Ordering → Ordering
with_nulls nulls_first a b o =
    if a && b
    then eq
    else if a
    then (if nulls_first then lt else gt)
    else if b
    then (if nulls_first then gt else lt)
    else o

with_nulls-flip :
    (nf a b : Bool) (o : Ordering) → with_nulls nf b a (flip o) ≡ flip (with_nulls nf a b o)
with_nulls-flip nf true true o = refl
with_nulls-flip true true false o = refl
with_nulls-flip false true false o = refl
with_nulls-flip true false true o = refl
with_nulls-flip false false true o = refl
with_nulls-flip nf false false o = refl

with_nulls-chain :
    (nf a b c : Bool) (o p q : Ordering)
    → (o ≢ gt → p ≢ gt → q ≢ gt)
    → with_nulls nf a b o ≢ gt
    → with_nulls nf b c p ≢ gt
    → with_nulls nf a c q ≢ gt
with_nulls-chain nf true b true o p q h g k = grind arith
with_nulls-chain nf false false false o p q h g k = h g k
with_nulls-chain nf false true false o p q h g k = grind arith
with_nulls-chain nf true true false o p q h g k = k
with_nulls-chain nf true false false o p q h g k = g
with_nulls-chain nf false true true o p q h g k = g
with_nulls-chain nf false false true o p q h g k = k

flip-flip : (o : Ordering) → flip (flip o) ≡ o
flip-flip lt = refl
flip-flip eq = refl
flip-flip gt = refl

module _ (fl : Float64) where
  column_turned :
      (c : Column) (a b : Value)
      → InColumn c a
      → InColumn c b
      → compare fl b a ≡ flip (compare fl a b)
  column_turned (plain_column k h) a b pa pb = (compare_antisymmetric fl a b (inl (k, h, pa, pb))).1
  column_turned exact_column a b pa pb = (compare_antisymmetric fl a b (inr (pa, pb))).1

  column_chain :
      (c : Column) (x y z : Value)
      → InColumn c x
      → InColumn c y
      → InColumn c z
      → compare fl x y ≢ gt
      → compare fl y z ≢ gt
      → compare fl x z ≢ gt
  column_chain (plain_column k h) x y z px py pz =
      compare_transitive fl x y z (inl (k, h, px, py, pz))
  column_chain exact_column x y z px py pz = compare_transitive fl x y z (inr (px, py, pz))

  directed : Bool → Value → Value → Ordering
  directed desc a b = if desc then flip (compare fl a b) else compare fl a b

  directed-OrdersOn : (c : Column) (desc : Bool) → OrdersOn (InColumn c) (directed desc)
  unfolding directed
  directed-OrdersOn c false = record { turned = column_turned c; chain = column_chain c }
  directed-OrdersOn c true = record {
    turned = λ a b pa pb. ap flip (column_turned c a b pa pb);
    chain = λ x y z px py pz h k e.
        column_chain c z y x pz py px (λ g. k (sym (column_turned c y z py pz) ∙ g))
          (λ g. h (sym (column_turned c x y px py) ∙ g)) (column_turned c x z px pz ∙ e);
  }

  sort_key-with_nulls :
      (desc nf : Bool) (a b : Value)
      → compare_sort_key fl desc nf a b ≡ with_nulls nf (is_null a) (is_null b) (directed desc a b)
  unfolding compare_sort_key directed
  sort_key-with_nulls desc nf a b = refl

  pub sort_key-OrdersOn :
      (c : Column) (desc nf : Bool) → OrdersOn (InColumn c) (compare_sort_key fl desc nf)
  sort_key-OrdersOn c desc nf =
      let o = directed-OrdersOn c desc in
      record {
        turned = λ a b pa pb.
            sort_key-with_nulls desc nf b a
            ∙ ap (with_nulls nf (is_null b) (is_null a)) (o.turned a b pa pb)
            ∙ with_nulls-flip nf (is_null a) (is_null b) (directed desc a b)
            ∙ ap flip (sym (sort_key-with_nulls desc nf a b));
        chain = λ x y z px py pz h k e.
            with_nulls-chain nf (is_null x) (is_null y) (is_null z) (directed desc x y)
              (directed desc y z) (directed desc x z) (o.chain x y z px py pz)
              (λ g. h (sort_key-with_nulls desc nf x y ∙ g))
              (λ g. k (sort_key-with_nulls desc nf y z ∙ g))
              (sym (sort_key-with_nulls desc nf x z) ∙ e);
      }
