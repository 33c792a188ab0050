-- ===== src/Types/Bool3.antt =====
-- internal/types/bool3.go: SQL's three-valued boolean.
pub mod Laws
use mathlib.Core.Bool.{Bool, ◌||◌}

pub data Bool3 : Type 0 where
  false true unknown : Bool3

-- The comparison of two Bool3 by Go's `==`.
abbrev pub same : Bool3 → Bool3 → Bool
same false false = Bool.true
same true true = Bool.true
same unknown unknown = Bool.true
same _ _ = Bool.false

unfoldable pub bool3_of : Bool → Bool3
bool3_of Bool.true = true
bool3_of Bool.false = false

unfoldable pub is_true : Bool3 → Bool
is_true b = same b true

unfoldable pub is_unknown : Bool3 → Bool
is_unknown b = same b unknown

unfoldable pub not3 : Bool3 → Bool3
not3 true = false
not3 false = true
not3 unknown = unknown

abbrev cond3 : Bool → Bool3 → Bool3 → Bool3
cond3 Bool.true x y = x
cond3 Bool.false x y = y

unfoldable pub and3 : Bool3 → Bool3 → Bool3
and3 b o =
    cond3 (same b false || same o false) false
      (cond3 (same b unknown || same o unknown) unknown true)

unfoldable pub or3 : Bool3 → Bool3 → Bool3
or3 b o =
    cond3 (same b true || same o true) true (cond3 (same b unknown || same o unknown) unknown false)
