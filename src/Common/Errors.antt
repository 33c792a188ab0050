-- ===== src/Common/Errors.antt =====
-- internal/pgerr/pgerr.go: the SQLSTATE codes. An error is modelled by its code, which is what
-- `Error.Is` compares; message, detail and position carry no behaviour.
use mathlib.Core.Path.{◌≡◌, refl}

pub data Code : Type 0 where
  syntax_error undefined_column undefined_table undefined_function undefined_object : Code
  invalid_schema_name object_in_use ambiguous_column invalid_column_reference : Code
  grouping_error duplicate_table duplicate_column datatype_mismatch : Code
  invalid_table_definition invalid_text_for_type invalid_datetime_format : Code
  numeric_value_out_of_range division_by_zero cardinality_violation : Code
  not_null_violation foreign_key_violation unique_violation check_violation : Code
  generated_always serialization_failure invalid_transaction_state : Code
  in_failed_transaction no_active_transaction read_only_sql_transaction : Code
  feature_not_supported internal_error data_corrupted : Code

-- A call that returns a value and an `error`.
pub data Result {ℓ} (A : Type ℓ) : Type ℓ where
  ok : A → Result A
  err : Code → Result A

infixl 5 ◌>>=◌
abbrev pub ◌>>=◌ {ℓ κ} : {A : Type ℓ} {B : Type κ} → Result A → (A → Result B) → Result B
ok a >>= f = f a
err e >>= f = err e

pub bind_ext {ℓ κ} :
    {A : Type ℓ} {B : Type κ} (r : Result A) (f g : A → Result B)
    → ((a : A) → f a ≡ g a)
    → r >>= f ≡ r >>= g
bind_ext (ok a) f g h = h a
bind_ext (err e) f g h = refl

pub bind_assoc {ℓ κ μ} :
    {A : Type ℓ} {B : Type κ} {C : Type μ} (r : Result A) (f : A → Result B) (g : B → Result C)
    → r >>= f >>= g ≡ r >>= λ a. f a >>= g
bind_assoc (ok a) f g = refl
bind_assoc (err e) f g = refl
