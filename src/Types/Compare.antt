-- ===== src/Types/Compare.antt =====
-- internal/types/value.go: the order of values, and SQL's comparisons. Floats are a parameter.
pub mod Orders
pub mod Order
pub mod Cycle
pub mod Tests
use Prim.Native.Nat.{compare as cmp_ℕ, Ordering, lt, eq, gt}
use lightsql.Common.{
  ℕ, Bool, true, false, ◌&&◌, not, List, [], ◌∷◌, Option, none, some, ◌==◌, if◌then◌else◌, Bytes,
}
use lightsql.Common.Int.{ℤ, pos}
use lightsql.Types.Bool3.{Bool3, bool3_of}
use lightsql.Types.Bool3
use lightsql.Types.Word.{int_of, word_of}
use lightsql.Types.Value.{
  Value, Kind, kind_number, kind_eq, is_numeric, is_exact, null, bool, int, float, text, bytea,
  json, jsonb,
}
use lightsql.Types.Value
use lightsql.Common.Varint.{le_bytes}
use lightsql.Types.Decimal
use lightsql.Types.Decimal.{Decimal, cmp_ℤ, pow10, to_int64}
use lightsql.Types.Numeric.{small_decimal, as_decimal, cmp_numeric}
use lightsql.Types.Float.{Float64}

-- `IsNull`
abbrev pub is_null : Value → Bool
is_null v = kind_eq v.k null

-- `exactNumeric`
unfoldable pub exact_numeric : Value → Value
exact_numeric v =
    if kind_eq v.k Value.numeric
    then v
    else record { k = Value.numeric; scale = 0; n = v.n; s = [] }

-- `cmpNumeric` of two values of kind numeric, for which it never follows a nil pointer.
unfoldable pub cmp_stored : Value → Value → Ordering
cmp_stored a b = elim (cmp_numeric a b) [ none ↦ eq | some o ↦ o ]

-- `cmp.Compare` of two strings, byte by byte.
unfoldable pub cmp_bytes : Bytes → Bytes → Ordering
cmp_bytes [] [] = eq
cmp_bytes [] (y ∷ ys) = lt
cmp_bytes (x ∷ xs) [] = gt
cmp_bytes (x ∷ xs) (y ∷ ys) =
    let rest = cmp_bytes xs ys in elim (cmp_ℕ x y) [ lt ↦ lt | gt ↦ gt | eq ↦ rest ]

module _ (fl : Float64) where
  open fl use {Float, from_bits, of_int, is_nan, less, div, power_of_ten, quotient}

  -- `Float64` of a decimal
  abbrev pub decimal_float : Decimal → Float
  decimal_float d = quotient d.unscaled (pos (pow10 d.scale))

  -- `AsFloat`
  unfoldable pub as_float : Value → Float
  as_float v =
      if kind_eq v.k int
      then of_int (int_of v.n)
      else if kind_eq v.k Value.numeric
      then elim (small_decimal v) [
        | some (unscaled, scale) ↦ div (of_int unscaled) (power_of_ten scale)
        | none ↦ elim (as_decimal v) [ some d ↦ decimal_float d | none ↦ from_bits v.n ]
      ]
      else from_bits v.n

  unfoldable pub cmp_float : Float → Float → Ordering
  cmp_float a b =
      if is_nan a && is_nan b
      then eq
      else if is_nan a
      then gt
      else if is_nan b
      then lt
      else if less a b
      then lt
      else if less b a
      then gt
      else eq

  -- The comparison of two values of one kind, which is not null.
  unfoldable pub cmp_same_kind : Kind → Value → Value → Ordering
  unfolding cmp_stored cmp_bytes as_float cmp_float
  cmp_same_kind bool a b = cmp_ℕ a.n b.n
  cmp_same_kind Value.numeric a b = cmp_stored a b
  cmp_same_kind float a b = cmp_float (as_float a) (as_float b)
  cmp_same_kind text a b = cmp_bytes a.s b.s
  cmp_same_kind bytea a b = cmp_bytes a.s b.s
  cmp_same_kind json a b = cmp_bytes a.s b.s
  cmp_same_kind jsonb a b = cmp_bytes a.s b.s
  cmp_same_kind _ a b = cmp_ℤ (int_of a.n) (int_of b.n)

  -- The comparison of two values of different kinds, neither of which is null.
  unfoldable pub cmp_kinds : Value → Value → Ordering
  unfolding exact_numeric cmp_stored as_float cmp_float
  cmp_kinds a b =
      if is_numeric a.k && is_numeric b.k
      then if is_exact a.k && is_exact b.k
        then cmp_stored (exact_numeric a) (exact_numeric b)
        else cmp_float (as_float a) (as_float b)
      else cmp_ℕ (kind_number a.k) (kind_number b.k)

  -- `Compare`
  unfoldable pub compare : Value → Value → Ordering
  unfolding cmp_same_kind cmp_kinds
  compare a b =
      if is_null a && is_null b
      then eq
      else if is_null a
      then gt
      else if is_null b
      then lt
      else if not (kind_eq a.k b.k)
      then cmp_kinds a b
      else cmp_same_kind a.k a b

  abbrev pub is_eq : Ordering → Bool
  is_eq eq = true
  is_eq _ = false

  abbrev pub is_lt : Ordering → Bool
  is_lt lt = true
  is_lt _ = false

  abbrev pub is_gt : Ordering → Bool
  is_gt gt = true
  is_gt _ = false

  -- `Equal`
  unfoldable pub equal : Value → Value → Bool
  unfolding compare
  equal a b = is_eq (compare a b)

  -- `sqlCmp`
  unfoldable pub sql_cmp : (Ordering → Bool) → Value → Value → Bool3
  unfolding compare
  sql_cmp pred a b = elim (is_null a) [
    | true ↦ Bool3.unknown
    | false ↦ elim (is_null b) [ true ↦ Bool3.unknown | false ↦ bool3_of (pred (compare a b)) ]
  ]

  unfoldable pub sql_eq : Value → Value → Bool3
  unfolding sql_cmp
  sql_eq = sql_cmp is_eq

  unfoldable pub sql_ne : Value → Value → Bool3
  unfolding sql_cmp
  sql_ne = sql_cmp (λ c. not (is_eq c))

  unfoldable pub sql_lt : Value → Value → Bool3
  unfolding sql_cmp
  sql_lt = sql_cmp is_lt

  unfoldable pub sql_le : Value → Value → Bool3
  unfolding sql_cmp
  sql_le = sql_cmp (λ c. not (is_gt c))

  unfoldable pub sql_gt : Value → Value → Bool3
  unfolding sql_cmp
  sql_gt = sql_cmp is_gt

  unfoldable pub sql_ge : Value → Value → Bool3
  unfolding sql_cmp
  sql_ge = sql_cmp (λ c. not (is_lt c))

  unfoldable pub is_distinct_from : Value → Value → Bool3
  unfolding equal
  is_distinct_from a b = bool3_of (not (equal a b))

-- `hashClass`
unfoldable pub hash_class : Kind → ℕ
hash_class k = if is_numeric k then kind_number int else kind_number k

module _ (fl : Float64) where
  open fl use {to_bits, of_int, to_int, same}

  -- What is written for a float: the integer that it is, or its bits.
  abbrev pub float_word : Value → ℕ
  float_word v =
      let f = as_float fl v in if same (of_int (to_int f)) f then word_of (to_int f) else v.n

  -- What is written for a decimal: the integer that it is, or the bits of the nearest float.
  abbrev pub decimal_word : Option Decimal → ℕ
  decimal_word none = 0
  decimal_word (some d) = elim (to_int64 d) [
    | none ↦ to_bits (decimal_float fl d)
    | some i ↦ elim (Decimal.cmp (Decimal.round d 0) d) [
      | eq ↦ word_of i
      | _ ↦ to_bits (decimal_float fl d)
    ]
  ]

  -- What `Hash` writes of a value after its class.
  unfoldable pub hash_payload : Kind → Value → Bytes
  hash_payload null v = []
  hash_payload text v = v.s
  hash_payload bytea v = v.s
  hash_payload json v = v.s
  hash_payload jsonb v = v.s
  hash_payload float v = le_bytes 8 (float_word v)
  hash_payload Value.numeric v = le_bytes 8 (decimal_word (as_decimal v))
  hash_payload _ v = le_bytes 8 v.n

  -- `Hash`: the bytes that it writes. What becomes of them is a hash of package hash/maphash.
  unfoldable pub hash : Value → Bytes
  unfolding hash_class hash_payload
  hash v = hash_class v.k ∷ hash_payload v.k v

-- `Truth`
unfoldable pub truth : Value → Bool3
truth v = if kind_eq v.k bool then bool3_of (not (v.n == 0)) else Bool3.unknown

-- `Bool`, `Int`, `Null`, `Text` and `Bool3.Value`
unfoldable pub null_value : Value
null_value = record { k = null; scale = 0; n = 0; s = [] }

unfoldable pub bool_value : Bool → Value
bool_value b = record { k = bool; scale = 0; n = if b then 1 else 0; s = [] }

unfoldable pub text_of : Bytes → Value
text_of s = record { k = text; scale = 0; n = 0; s = s }

unfoldable pub bool3_value : Bool3 → Value
unfolding null_value bool_value
bool3_value Bool3.unknown = null_value
bool3_value Bool3.true = bool_value true
bool3_value Bool3.false = bool_value false
