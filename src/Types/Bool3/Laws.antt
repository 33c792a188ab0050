-- ===== src/Types/Bool3/Laws.antt =====
-- Bool3 is Kleene's strong three-valued logic.
use mathlib.Core.Path.{◌≡◌}
use mathlib.Core.Logic.{◌↔◌, ◌⊎◌}
use mathlib.Core.Bool.{Bool, not, ◌&&◌, ◌||◌}
use native.Mathlib.Omega.{arith}
use lightsql.Types.Bool3.{Bool3, is_true, not3, and3, or3}

-- The Booleans that a value may turn out to be: an unknown one may be either.
abbrev pub may : Bool3 → Bool → Bool
may Bool3.true b = b
may Bool3.false b = not b
may Bool3.unknown b = Bool.true

abbrev pub bool_eq : Bool → Bool → Bool
bool_eq Bool.true b = b
bool_eq Bool.false b = not b

-- Some pair of Booleans that `a` and `b` may turn out to be has the value `z` under `f`.
abbrev pub some_outcome : (Bool → Bool → Bool) → Bool3 → Bool3 → Bool → Bool
some_outcome f a b z =
    (may a Bool.true && may b Bool.true && bool_eq (f Bool.true Bool.true) z)
    || (may a Bool.true && may b Bool.false && bool_eq (f Bool.true Bool.false) z)
    || (may a Bool.false && may b Bool.true && bool_eq (f Bool.false Bool.true) z)
    || (may a Bool.false && may b Bool.false && bool_eq (f Bool.false Bool.false) z)

-- AND, OR and NOT are exact: the Booleans that a result may turn out to be are those that Boolean
-- AND, OR and NOT give on some Booleans that the operands may turn out to be.
pub kleene :
    (a b : Bool3) (z : Bool)
    → (may (and3 a b) z ≡ some_outcome ◌&&◌ a b z)
      × (may (or3 a b) z ≡ some_outcome ◌||◌ a b z)
      × (may (not3 a) z ≡ may a (not z))
unfolding and3 or3 not3
kleene a b z = ground arith

-- De Morgan, and NOT twice.
pub de_morgan :
    (a b : Bool3)
    → (not3 (and3 a b) ≡ or3 (not3 a) (not3 b))
      × (not3 (or3 a b) ≡ and3 (not3 a) (not3 b))
      × (not3 (not3 a) ≡ a)
unfolding not3 and3 or3
de_morgan a b = ground arith

-- AND distributes over OR and OR over AND; both are associative and commutative.
pub distributes :
    (a b c : Bool3)
    → (and3 a (or3 b c) ≡ or3 (and3 a b) (and3 a c))
      × (or3 a (and3 b c) ≡ and3 (or3 a b) (or3 a c))
      × (and3 a (and3 b c) ≡ and3 (and3 a b) c)
      × (or3 a (or3 b c) ≡ or3 (or3 a b) c)
      × (and3 a b ≡ and3 b a)
      × (or3 a b ≡ or3 b a)
unfolding and3 or3
distributes a b c = ground arith

-- A conjunction passes a filter exactly when both sides do.
pub is_true-and3 :
    (a b : Bool3)
    → (is_true (and3 a b) ≡ Bool.true) ↔ ((is_true a ≡ Bool.true) × (is_true b ≡ Bool.true))
unfolding is_true and3
is_true-and3 a b = ground arith

-- A disjunction passes a filter exactly when one side does.
pub is_true-or3 :
    (a b : Bool3)
    → (is_true (or3 a b) ≡ Bool.true) ↔ ((is_true a ≡ Bool.true) ⊎ (is_true b ≡ Bool.true))
unfolding is_true or3
is_true-or3 a b = ground arith
