-- ===== src/Types/Value.antt =====
-- internal/types/value.go: kinds, values and their constructors.
use lightsql.Common.{ℕ, Bool, true, false, Bytes, ◌==◌}

pub data Kind : Type 0 where
  null bool int float text bytea date time timestamp timestamptz json jsonb numeric : Kind

-- The number behind a Kind, which `cmp.Compare(a.k, b.k)` and the codec read.
abbrev pub kind_number : Kind → ℕ
kind_number null = 0
kind_number bool = 1
kind_number int = 2
kind_number float = 3
kind_number text = 4
kind_number bytea = 5
kind_number date = 6
kind_number time = 7
kind_number timestamp = 8
kind_number timestamptz = 9
kind_number json = 10
kind_number jsonb = 11
kind_number numeric = 12

abbrev pub kind_eq : Kind → Kind → Bool
kind_eq a b = kind_number a == kind_number b

-- `Kind.IsNumeric` and `Kind.IsExact`
unfoldable pub is_numeric : Kind → Bool
is_numeric int = true
is_numeric float = true
is_numeric numeric = true
is_numeric _ = false

unfoldable pub is_exact : Kind → Bool
is_exact int = true
is_exact numeric = true
is_exact _ = false

pub record Value : Type 0 where
  pub k : Kind
  pub scale : ℕ
  pub n : ℕ
  pub s : Bytes
