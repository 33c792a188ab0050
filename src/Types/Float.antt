-- ===== src/Types/Float.antt =====
-- Go's float64, of which the models use the operations below: conversions, comparison and the functions of
-- package math and math/big that value.go and the executor call.
use lightsql.Common.{ℕ, Bool}
use lightsql.Common.Int.{ℤ}

pub record Float64 : Type 1 where
  pub Float : Type 0
  -- `math.Float64frombits` and `math.Float64bits`
  pub from_bits : ℕ → Float
  pub to_bits : Float → ℕ
  -- `float64(i)` of an int64, and the int64 that a float64 converts to
  pub of_int : ℤ → Float
  pub to_int : Float → ℤ
  pub is_nan : Float → Bool
  pub less : Float → Float → Bool
  pub same : Float → Float → Bool
  pub div : Float → Float → Float
  -- `math.Pow(10, float64(n))`
  pub power_of_ten : ℕ → Float
  -- `Quo` of two big.Float that are set to integers, as a float64
  pub quotient : ℤ → ℤ → Float
  -- `+`, `-`, `*`, `math.Mod`, `math.Pow` and the negation
  pub add : Float → Float → Float
  pub sub : Float → Float → Float
  pub mul : Float → Float → Float
  pub modulo : Float → Float → Float
  pub pow : Float → Float → Float
  pub negate : Float → Float
