-- ===== src/Types/Compare/Order.antt =====
-- Values of one column are totally ordered by Compare, floats apart (internal/types/value.go).
use Prim.Native.Nat.{compare as cmp_ℕ, Ordering, lt, eq, gt}
use lightsql.Common.{
  ℕ, ◌^◌, ◌<◌, true, false, ◌&&◌, not, [], Option, none, some, ◌==◌, ==_refl, if◌then◌else◌, ◌≡◌,
  ◌≢◌, ◌⊎◌, refl, sym, ap, ◌∙◌, arith, inl, inr,
}
use mathlib.Core.Path.{ap₂}
use lightsql.Types.Word.{int_of, word_of-int_of, is_int64}
use lightsql.Types.Value.{
  Value, Kind, kind_number, kind_eq, is_numeric, is_exact, null, bool, int, float, text, bytea,
  date, time, timestamp, timestamptz, json, jsonb,
}
use lightsql.Types.Value
use lightsql.Types.Decimal.{Decimal, cmp_ℤ, align, rescale}
use lightsql.Types.Decimal
use lightsql.Types.Numeric.{numeric}
use lightsql.Types.Numeric.Encoding.{numeric-small}
use lightsql.Types.Numeric.Agreement.{numeric_agrees}
use lightsql.Types.Float.{Float64}
use lightsql.Types.Compare.{
  exact_numeric, cmp_stored, cmp_bytes, cmp_same_kind, cmp_kinds, compare, cmp_float, as_float,
}
use lightsql.Types.Compare.Orders.{
  flip, IsOrder, cmp_ℕ-IsOrder, cmp_ℤ-IsOrder, cmp_bytes-IsOrder, cmp-IsOrder, along, last,
  last-IsOrder,
}

-- A cell of a column of kind `k`, which is not a number: null, or of the kind of the column.
pub data Plain (k : Kind) : Value → Type 0 where
  absent : (v : Value) → v.k ≡ null → Plain k v
  of_kind : (v : Value) → v.k ≡ k → k ≢ null → Plain k v

-- A cell of a column of numbers that are exact: null, an int64, or a decimal.
pub data Exact : Value → Type 0 where
  no_number : (v : Value) → v.k ≡ null → Exact v
  integer : (n : ℕ) → n < 2 ^ 64 → Exact (record { k = int; scale = 0; n = n; s = [] })
  decimal : (d : Decimal) → d.scale < 2 ^ 31 → Exact (numeric d)

module _ (fl : Float64) where
  same_kind-IsOrder : (k : Kind) → is_numeric k ≡ false → IsOrder (cmp_same_kind fl k)
  unfolding cmp_same_kind is_numeric
  same_kind-IsOrder null h = along (λ (v : Value). int_of v.n) cmp_ℤ cmp_ℤ-IsOrder
  same_kind-IsOrder bool h = along (λ (v : Value). v.n) cmp_ℕ cmp_ℕ-IsOrder
  same_kind-IsOrder int h = ground arith
  same_kind-IsOrder float h = ground arith
  same_kind-IsOrder text h = along (λ (v : Value). v.s) cmp_bytes cmp_bytes-IsOrder
  same_kind-IsOrder bytea h = along (λ (v : Value). v.s) cmp_bytes cmp_bytes-IsOrder
  same_kind-IsOrder date h = along (λ (v : Value). int_of v.n) cmp_ℤ cmp_ℤ-IsOrder
  same_kind-IsOrder time h = along (λ (v : Value). int_of v.n) cmp_ℤ cmp_ℤ-IsOrder
  same_kind-IsOrder timestamp h = along (λ (v : Value). int_of v.n) cmp_ℤ cmp_ℤ-IsOrder
  same_kind-IsOrder timestamptz h = along (λ (v : Value). int_of v.n) cmp_ℤ cmp_ℤ-IsOrder
  same_kind-IsOrder json h = along (λ (v : Value). v.s) cmp_bytes cmp_bytes-IsOrder
  same_kind-IsOrder jsonb h = along (λ (v : Value). v.s) cmp_bytes cmp_bytes-IsOrder
  same_kind-IsOrder Value.numeric h = ground arith

  -- Compare, with the kinds of its operands apart from them.
  unfoldable pub compare_at : Kind → Kind → Value → Value → Ordering
  compare_at j k a b =
      if kind_eq j null && kind_eq k null
      then eq
      else if kind_eq j null
      then gt
      else if kind_eq k null
      then lt
      else if not (kind_eq j k)
      then if is_numeric j && is_numeric k
        then if is_exact j && is_exact k
          then cmp_stored (exact_numeric a) (exact_numeric b)
          else cmp_float fl (as_float fl a) (as_float fl b)
        else cmp_ℕ (kind_number j) (kind_number k)
      else cmp_same_kind fl j a b

  pub compare-compare_at :
      (j k : Kind) (a b : Value) → a.k ≡ j → b.k ≡ k → compare fl a b ≡ compare_at j k a b
  unfolding compare cmp_kinds compare_at
  compare-compare_at j k a b ea eb = ap₂ (λ x y. compare_at x y a b) ea eb

  plain_view : {k : Kind} {v : Value} → Plain k v → Option Value
  plain_view (absent v e) = none
  plain_view (of_kind v e n) = some v

  not_null : (k : Kind) → k ≢ null → kind_eq k null ≡ false
  not_null null h = absurd (h refl)
  not_null bool h = refl
  not_null int h = refl
  not_null float h = refl
  not_null text h = refl
  not_null bytea h = refl
  not_null date h = refl
  not_null time h = refl
  not_null timestamp h = refl
  not_null timestamptz h = refl
  not_null json h = refl
  not_null jsonb h = refl
  not_null Value.numeric h = refl

  compare-Plain :
      (k : Kind) (a b : Value) (p : Plain k a) (q : Plain k b)
      → compare fl a b ≡ last (cmp_same_kind fl k) (plain_view p) (plain_view q)
  unfolding compare_at plain_view
  compare-Plain k a b (absent _ e) (absent _ f) = compare-compare_at null null a b e f
  compare-Plain k a b (absent _ e) (of_kind _ f n) =
      compare-compare_at null k a b e f ∙ rw (not_null k n) refl
  compare-Plain k a b (of_kind _ e n) (absent _ f) =
      compare-compare_at k null a b e f ∙ rw (not_null k n) refl
  compare-Plain k a b (of_kind _ e n) (of_kind _ f m) =
      compare-compare_at k k a b e f ∙ rw (not_null k n, ==_refl (kind_number k)) refl

  unfoldable pub exact_view : {v : Value} → Exact v → Option Decimal
  exact_view (no_number v e) = none
  exact_view (integer n h) = some (record { unscaled = int_of n; scale = 0 })
  exact_view (decimal d h) = some d

  pub k-numeric : (d : Decimal) → (numeric d).k ≡ Value.numeric
  unfolding numeric
  k-numeric d = ground arith

  exact_numeric-integer :
      (n : ℕ)
      → n < 2 ^ 64
      → exact_numeric (record { k = int; scale = 0; n = n; s = [] })
        ≡ numeric (record { unscaled = int_of n; scale = 0 })
  unfolding exact_numeric
  exact_numeric-integer n h =
      let back =
        ap (λ (m : ℕ). record { k = Value.numeric; scale = 0; n = m; s = [] })
          (sym (word_of-int_of n h)) in
      back ∙ sym (numeric-small (record { unscaled = int_of n; scale = 0 }) (int_of_fits n h))
    where
      int_of_fits : (n : ℕ) → n < 2 ^ 64 → true && is_int64 (int_of n) ≡ true
      int_of_fits n h = ground arith

  exact_numeric-decimal : (d : Decimal) → exact_numeric (numeric d) ≡ numeric d
  unfolding exact_numeric
  exact_numeric-decimal d =
      ap
        (λ k.
          if kind_number k == 12
          then numeric d
          else record { k = Value.numeric; scale = 0; n = (numeric d).n; s = [] })
        (k-numeric d)

  cmp_stored-numeric :
      (a b : Decimal)
      → a.scale < 2 ^ 31
      → b.scale < 2 ^ 31
      → cmp_stored (numeric a) (numeric b) ≡ Decimal.cmp a b
  unfolding cmp_stored
  cmp_stored-numeric a b ha hb =
      ap (λ o. elim o [ none ↦ eq | some x ↦ x ]) (numeric_agrees a b ha hb).5

  pub compare-Exact :
      (a b : Value) (p : Exact a) (q : Exact b)
      → compare fl a b ≡ last Decimal.cmp (exact_view p) (exact_view q)
  unfolding compare_at exact_view cmp_same_kind is_numeric is_exact
  compare-Exact a b (no_number _ e) (no_number _ f) = compare-compare_at null null a b e f
  compare-Exact a b (no_number _ e) (integer m g) = compare-compare_at null int a b e refl
  compare-Exact a b (no_number _ e) (decimal d g) =
      compare-compare_at null Value.numeric a b e (k-numeric d)
  compare-Exact a b (integer n h) (no_number _ f) = compare-compare_at int null a b refl f
  compare-Exact a b (integer n h) (integer m g) =
      compare-compare_at int int a b refl refl ∙ unfold Decimal.cmp align rescale in refl
  compare-Exact a b (integer n h) (decimal d g) =
      compare-compare_at int Value.numeric a b refl (k-numeric d)
      ∙ ap₂ cmp_stored (exact_numeric-integer n h) (exact_numeric-decimal d)
      ∙ cmp_stored-numeric (record { unscaled = int_of n; scale = 0 }) d (omega arith) g
  compare-Exact a b (decimal d h) (no_number _ f) =
      compare-compare_at Value.numeric null a b (k-numeric d) f
  compare-Exact a b (decimal d h) (integer m g) =
      compare-compare_at Value.numeric int a b (k-numeric d) refl
      ∙ ap₂ cmp_stored (exact_numeric-decimal d) (exact_numeric-integer m g)
      ∙ cmp_stored-numeric d (record { unscaled = int_of m; scale = 0 }) h (omega arith)
  compare-Exact a b (decimal d h) (decimal e g) =
      compare-compare_at Value.numeric Value.numeric a b (k-numeric d) (k-numeric e)
      ∙ cmp_stored-numeric d e h g

  by_views :
      {A : Type 0} (k : A → A → Ordering) (o : IsOrder k) (x y z : A) (a b c : Value)
      → compare fl a a ≡ k x x
      → compare fl b a ≡ k y x
      → compare fl a b ≡ k x y
      → compare fl b c ≡ k y z
      → compare fl a c ≡ k x z
      → (compare fl a a ≡ eq)
        × (compare fl b a ≡ flip (compare fl a b))
        × (compare fl a b ≢ gt → compare fl b c ≢ gt → compare fl a c ≢ gt)
  by_views k o x y z a b c aa ba ab bc ac = (
    aa ∙ o.same x,
    ba ∙ o.turned x y ∙ ap flip (sym ab),
    λ h g e. o.chain x y z (λ t. h (ab ∙ t)) (λ t. g (bc ∙ t)) (sym ac ∙ e),
  )

  column_order :
      (a b c : Value)
      → ((k : Kind) × (is_numeric k ≡ false) × Plain k a × Plain k b × Plain k c)
        ⊎ (Exact a × Exact b × Exact c)
      → (compare fl a a ≡ eq)
        × (compare fl b a ≡ flip (compare fl a b))
        × (compare fl a b ≢ gt → compare fl b c ≢ gt → compare fl a c ≢ gt)
  column_order a b c (inl (k, h, p, q, r)) =
      let o = last-IsOrder (cmp_same_kind fl k) (same_kind-IsOrder k h) in
      by_views (last (cmp_same_kind fl k)) o (plain_view p) (plain_view q) (plain_view r) a b c
        (compare-Plain k a a p p) (compare-Plain k b a q p) (compare-Plain k a b p q)
        (compare-Plain k b c q r) (compare-Plain k a c p r)
  column_order a b c (inr (p, q, r)) =
      by_views (last Decimal.cmp) (last-IsOrder Decimal.cmp cmp-IsOrder) (exact_view p)
        (exact_view q) (exact_view r) a b c (compare-Exact a a p p) (compare-Exact b a q p)
        (compare-Exact a b p q) (compare-Exact b c q r) (compare-Exact a c p r)

  -- Compare finds a cell of a column equal to itself, and of two cells the second compares to the
  -- first the other way round. The column is of a kind that is not a number, or of exact numbers of
  -- either kind; its cells may be null.
  pub compare_antisymmetric :
      (a b : Value)
      → ((k : Kind) × (is_numeric k ≡ false) × Plain k a × Plain k b) ⊎ (Exact a × Exact b)
      → (compare fl a a ≡ eq) × (compare fl b a ≡ flip (compare fl a b))
  compare_antisymmetric a b (inl (k, h, p, q)) =
      let (same, turned, _) = column_order a b b (inl (k, h, p, q, q)) in (same, turned)
  compare_antisymmetric a b (inr (p, q)) =
      let (same, turned, _) = column_order a b b (inr (p, q, q)) in (same, turned)

  -- Compare is transitive on the cells of a column, of a kind that is not a number or of exact
  -- numbers of either kind, null included: a cell that is not after a second one, which is not after a
  -- third, is not after the third.
  pub compare_transitive :
      (a b c : Value)
      → ((k : Kind) × (is_numeric k ≡ false) × Plain k a × Plain k b × Plain k c)
        ⊎ (Exact a × Exact b × Exact c)
      → compare fl a b ≢ gt
      → compare fl b c ≢ gt
      → compare fl a c ≢ gt
  compare_transitive a b c h = let (_, _, chain) = column_order a b c h in chain
