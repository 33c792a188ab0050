-- ===== src/Types/Compare/Cycle.antt =====
-- Where Compare is not an order: between kinds, and where floats meet integers (internal/types/value.go).
use Prim.Native.Nat.{lt, eq}
use lightsql.Common.{
  ℕ, ◌^◌, ◌<◌, [], ◌∷◌, ◌++◌, Bytes, arith, ◌≡◌, ◌≢◌, refl, sym, ap, ◌∙◌, Option, none, some,
}
use lightsql.Common.Varint.{le_bytes, le_word, le_word-le_bytes}
use lightsql.Types.Word.{int_of}
use lightsql.Types.Value.{Value, Kind, int, float, text, is_numeric, is_exact}
use lightsql.Types.Value
use lightsql.Types.Decimal.{Decimal, cmp_ℤ}
use lightsql.Types.Decimal
use lightsql.Types.Numeric.{numeric}
use lightsql.Types.Float.{Float64}
use lightsql.Types.Compare.{compare, text_of, hash, hash_class, cmp_float, cmp_same_kind}
use lightsql.Types.Compare.Order.{
  compare_at, compare-compare_at, compare-Exact, exact_view, integer, decimal, k-numeric,
}

abbrev pub int_cell : ℕ → Value
int_cell n = record { k = int; scale = 0; n = n; s = [] }

abbrev pub float_cell : ℕ → Value
float_cell n = record { k = float; scale = 0; n = n; s = [] }

same_word : (m n : ℕ) → m < 2 ^ 64 → n < 2 ^ 64 → cmp_ℤ (int_of m) (int_of n) ≡ eq → m ≡ n
same_word m n hm hn e = ground arith

same_bytes : (m n : ℕ) → m < 2 ^ 64 → n < 2 ^ 64 → le_bytes 8 m ≡ le_bytes 8 n → m ≡ n
same_bytes m n hm hn e =
    let read =
      sym (le_word-le_bytes 8 m [] (omega arith))
      ∙ ap (λ b. le_word 8 (b ++ [])) e
      ∙ le_word-le_bytes 8 n [] (omega arith) in
    ap word read
  where
    word : Option (ℕ × Bytes) → ℕ
    word none = 0
    word (some (k, rest)) = k

drop_one : Bytes → Bytes
drop_one [] = []
drop_one (b ∷ bs) = bs

module _ (fl : Float64) where
  -- Compare is not an order of all values: an integer comes before every text, a text before every decimal,
  -- and a decimal before the integers that are greater.
  pub compare_cycle :
      (d : Decimal) (s : Bytes) (n : ℕ)
      → d.scale < 2 ^ 31
      → n < 2 ^ 64
      → Decimal.cmp d (record { unscaled = int_of n; scale = 0 }) ≡ lt
      → (compare fl (int_cell n) (text_of s) ≡ lt)
        × (compare fl (text_of s) (numeric d) ≡ lt)
        × (compare fl (numeric d) (int_cell n) ≡ lt)
  unfolding compare_at exact_view text_of is_numeric
  compare_cycle d s n hd hn below = (
    compare-compare_at fl int text (int_cell n) (text_of s) refl refl,
    compare-compare_at fl text Value.numeric (text_of s) (numeric d) refl (k-numeric fl d),
    compare-Exact fl (numeric d) (int_cell n) (decimal d hd) (integer n hn) ∙ below,
  )

  hash_int :
      (m n : ℕ) {b : Bytes}
      → hash fl (int_cell m) ≡ b
      → hash fl (int_cell n) ≡ b
      → hash_class int ∷ le_bytes 8 m ≡ hash_class int ∷ le_bytes 8 n
  unfolding hash
  hash_int m n h g = h ∙ sym g

  -- Where two integers compare equal to one float, which they convert to, Compare is not transitive, since
  -- they are not equal to each other, and they do not both hash as the float does.
  pub compare_float_gap :
      (m n w : ℕ)
      → m < 2 ^ 64
      → n < 2 ^ 64
      → cmp_float fl (fl.of_int (int_of m)) (fl.from_bits w) ≡ eq
      → cmp_float fl (fl.from_bits w) (fl.of_int (int_of n)) ≡ eq
      → m ≢ n
      → (compare fl (int_cell m) (float_cell w) ≡ eq)
        × (compare fl (float_cell w) (int_cell n) ≡ eq)
        × (compare fl (int_cell m) (int_cell n) ≢ eq)
        × (¬ (
            (hash fl (int_cell m) ≡ hash fl (float_cell w))
            × (hash fl (int_cell n) ≡ hash fl (float_cell w))))
  unfolding compare_at cmp_same_kind is_numeric is_exact
  compare_float_gap m n w hm hn em en apart = (
    compare-compare_at fl int float (int_cell m) (float_cell w) refl refl ∙ em,
    compare-compare_at fl float int (float_cell w) (int_cell n) refl refl ∙ en,
    (λ e. apart (
        same_word m n hm hn
          (sym (compare-compare_at fl int int (int_cell m) (int_cell n) refl refl) ∙ e))),
    λ (h, g). apart (same_bytes m n hm hn (unfold drop_one in ap drop_one (hash_int m n h g))),
  )
