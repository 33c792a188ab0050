-- ===== src/Catalog/Tests.antt =====
-- Constraints at concrete inputs, with a hash of which every key has the same.
use lightsql.Common.{ℕ, ◌≡◌, refl, List, [], ◌∷◌, Any, All, none, some, foreign_key_violation}
use lightsql.Common.Int.{pos}
use lightsql.Types.Value.{Value}
use lightsql.Types.Compare.{equal}
use lightsql.Types.Compare.Tests.{coarse}
use lightsql.Exec.Eval.{int_value}
use lightsql.Catalog.Unique.{passed, refused, key, entrant, key_equal, check_unique_over}
use lightsql.Catalog.Unique.Linear.{check_pairs, Enters, HashRespects, check_unique_over_lem}
use lightsql.Catalog.References.{ForeignKey, check_foreign_keys}
use lightsql.Catalog.References.Dangling.{Refers, Dangles, Told, check_foreign_keys_lem}
use lightsql.Exec.Conflict.{find_version}
use lightsql.Exec.Conflict.Insert.{no_conflict-insert}

abbrev one : Value
one = int_value (pos 1)

abbrev two : Value
two = int_value (pos 2)

-- The keys of the examples.
data OneOrTwo : List Value → Type 0 where
  is_one : OneOrTwo (one ∷ [])
  is_two : OneOrTwo (two ∷ [])

abbrev one_hash : List Value → ℕ
one_hash k = 7

one_hash-HashRespects : HashRespects coarse one_hash OneOrTwo
one_hash-HashRespects a b p q e = refl

key_equal_symm :
    (a b : List Value) → OneOrTwo a → OneOrTwo b → key_equal coarse a b ≡ key_equal coarse b a
unfolding key_equal equal
key_equal_symm a b is_one is_one = refl
key_equal_symm a b is_one is_two = refl
key_equal_symm a b is_two is_one = refl
key_equal_symm a b is_two is_two = refl

one-Enters : Enters OneOrTwo (entrant (0 ∷ []) none (one ∷ []))
unfolding entrant
one-Enters = is_one

two-Enters : Enters OneOrTwo (entrant (0 ∷ []) none (two ∷ []))
unfolding entrant
two-Enters = is_two

check_unique_over_lem_example :
    check_unique_over coarse one_hash (0 ∷ []) none ((one ∷ []) ∷ (two ∷ []) ∷ (one ∷ []) ∷ [])
    ≡ check_pairs coarse (0 ∷ []) none [] ((one ∷ []) ∷ (two ∷ []) ∷ (one ∷ []) ∷ [])
check_unique_over_lem_example =
    check_unique_over_lem coarse one_hash OneOrTwo one_hash-HashRespects (0 ∷ []) none
      ((one ∷ []) ∷ (two ∷ []) ∷ (one ∷ []) ∷ []) (one-Enters, (two-Enters, (one-Enters, tt)))

two_key : entrant (0 ∷ []) none (two ∷ []) ≡ key (two ∷ [])
unfolding entrant
two_key = refl

two_found : find_version coarse {V = ℕ} (0 ∷ []) ((5, one ∷ []) ∷ []) (two ∷ []) ≡ some none
unfolding find_version equal
two_found = refl

one_passes : check_unique_over coarse one_hash (0 ∷ []) none ((one ∷ []) ∷ []) ≡ passed
unfolding check_unique_over
one_passes = refl

no_conflict-insert_example :
    check_unique_over coarse one_hash (0 ∷ []) none ((one ∷ []) ∷ (two ∷ []) ∷ []) ≡ passed
no_conflict-insert_example =
    no_conflict-insert coarse {V = ℕ} one_hash OneOrTwo (0 ∷ []) ((5, one ∷ []) ∷ []) (two ∷ [])
      (two ∷ []) one_hash-HashRespects key_equal_symm (one-Enters, tt) two_key is_two two_found
      one_passes

-- A parent with the row 1.
abbrev parent : ForeignKey
parent = record { columns = 0 ∷ []; parent_cols = 0 ∷ []; parent_rows = (one ∷ []) ∷ [] }

check_foreign_keys_lem_example :
    Told coarse
      (All (λ row. All (Refers coarse row) (parent ∷ [])) ((one ∷ []) ∷ (two ∷ []) ∷ []))
      (Any (λ row. Any (Dangles coarse row) (parent ∷ [])) ((one ∷ []) ∷ (two ∷ []) ∷ []))
      (check_foreign_keys coarse (parent ∷ []) ((one ∷ []) ∷ (two ∷ []) ∷ []))
check_foreign_keys_lem_example =
    check_foreign_keys_lem coarse (parent ∷ []) ((one ∷ []) ∷ (two ∷ []) ∷ [])

-- The row 2 has no parent.
two_dangles :
    check_foreign_keys coarse (parent ∷ []) ((one ∷ []) ∷ (two ∷ []) ∷ [])
    ≡ refused foreign_key_violation
unfolding check_foreign_keys equal
two_dangles = refl
