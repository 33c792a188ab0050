-- ===== src/Catalog/Table/Sequence.antt =====
-- The sequences of a table after a restart (internal/catalog/catalog.go: RestoreSequences, NextSerial).
use mathlib.Core.Path.{subst}
use lightsql.Common.{
  ◌-◌, ℕ, zero, suc, ◌+◌, ◌<◌, ◌≡◌, refl, ap, ◌∙◌, Bool, true, false, List, [], ◌∷◌, Option, none,
  some, ◌==◌, if◌then◌else◌, get_elem?, All, arith,
}
use lightsql.Common.Int.{ℤ, pos, negsuc, ltb_ℤ, ℤ_eq, ◌≤ℤ◌}
use lightsql.Types.Value
use lightsql.Types.Value.{Value, kind_eq}
use lightsql.Types.Word.{half_word, int_of}
use lightsql.Storage.Txn.{TxManager}
use lightsql.Storage.Tx.{Tx}
use lightsql.Exec.Eval.{Row}
use lightsql.Catalog.Row.{Column}
use lightsql.Catalog.Table.{
  Table, rows, next_int, raised, highest, restored, restore_from, restore_sequences, next_serial,
}

-- An integer of a column, where the row has one there.
abbrev pub IsAtMost : ℤ → Option Value → Type 0
IsAtMost high none = Unit
IsAtMost high (some v) = kind_eq v.k Value.int ≡ true → int_of v.n ≤ℤ high

raised_le : (high : ℤ) (o : Option Value) → high ≤ℤ raised high o
raised_le high none = omega arith
raised_le high (some v) = ground arith

raised-IsAtMost : (high : ℤ) (o : Option Value) → IsAtMost (raised high o) o
raised-IsAtMost high none = tt
raised-IsAtMost high (some v) = λ k. rw k (ground arith)

raised_bounded :
    (top high : ℤ) (o : Option Value) → high ≤ℤ top → IsAtMost top o → raised high o ≤ℤ top
raised_bounded top high none h k = h
raised_bounded top high (some v) h k = ground (arith, k)

IsAtMost-trans : (a b : ℤ) (o : Option Value) → a ≤ℤ b → IsAtMost a o → IsAtMost b o
IsAtMost-trans a b none h k = tt
IsAtMost-trans a b (some v) h k = λ e. omega (arith, k e)

highest_le : (ord : ℕ) (seen : List Row) (high : ℤ) → high ≤ℤ highest ord seen high
unfolding highest
highest_le ord [] high = omega arith
highest_le ord (row ∷ rest) high = omega (
  arith,
  raised_le high (get_elem? row ord),
  highest_le ord rest (raised high (get_elem? row ord)),
)

highest-IsAtMost :
    (ord : ℕ) (seen : List Row) (high : ℤ)
    → All (λ row. IsAtMost (highest ord seen high) (get_elem? row ord)) seen
unfolding highest
highest-IsAtMost ord [] high = tt
highest-IsAtMost ord (row ∷ rest) high =
    let here = raised high (get_elem? row ord) in
    (
      IsAtMost-trans here (highest ord rest here) (get_elem? row ord) (highest_le ord rest here)
          (raised-IsAtMost high (get_elem? row ord)),
      highest-IsAtMost ord rest here,
    )

highest_bounded :
    (top : ℤ) (ord : ℕ) (seen : List Row) (high : ℤ)
    → high ≤ℤ top
    → All (λ row. IsAtMost top (get_elem? row ord)) seen
    → highest ord seen high ≤ℤ top
unfolding highest
highest_bounded top ord [] high h all = h
highest_bounded top ord (row ∷ rest) high h all =
    highest_bounded top ord rest (raised high (get_elem? row ord))
      (raised_bounded top high (get_elem? row ord) h all.0) all.1

-- Another column keeps its sequence.
other_column :
    (i ord : ℕ) (seen : List Row) (next : ℕ → ℤ) (b : Bool)
    → (i == ord) ≡ false
    → (if b then restored ord seen next else next) i ≡ next i
unfolding restored
other_column i ord seen next true h = rw h refl
other_column i ord seen next false h = refl

restore_before :
    (i start : ℕ) (cols : List Column) (seen : List Row) (next : ℕ → ℤ)
    → i < start
    → restore_from start cols seen next i ≡ next i
unfolding restore_from
restore_before i start [] seen next h = refl
restore_before i start (col ∷ cols) seen next h =
    restore_before i (start + 1) cols seen (if col.serial then restored start seen next else next)
      (omega arith)
    ∙ other_column i start seen next col.serial (ground arith)

-- Whether the table has a serial column at the ordinal.
abbrev pub is_serial : ℕ → List Column → Bool
is_serial i [] = false
is_serial zero (col ∷ cols) = col.serial
is_serial (suc i) (col ∷ cols) = is_serial i cols

-- What is left of the sequence of a serial column.
abbrev after : ℤ → ℤ → ℤ
after high old = if ltb_ℤ (pos 0) high then next_int high else old

own_column :
    (i ord : ℕ) (seen : List Row) (next : ℕ → ℤ)
    → i ≡ ord
    → restored ord seen next i ≡ after (highest i seen (pos 0)) (next i)
unfolding restored
own_column i ord seen next e =
    let same : (i == i) ≡ true = ground arith in
    subst (λ o. restored o seen next i ≡ after (highest i seen (pos 0)) (next i)) e (rw same refl)

restore_at :
    (k start i : ℕ) (cols : List Column) (seen : List Row) (next : ℕ → ℤ)
    → i ≡ start + k
    → is_serial k cols ≡ true
    → restore_from start cols seen next i ≡ after (highest i seen (pos 0)) (next i)
unfolding restore_from
restore_at k start i [] seen next e h = absurd (ground arith)
restore_at zero start i (col ∷ cols) seen next e h =
    restore_before i (start + 1) cols seen (if col.serial then restored start seen next else next)
      (omega arith)
    ∙ ap (λ b. (if b then restored start seen next else next) i) h
    ∙ own_column i start seen next (omega arith)
restore_at (suc k) start i (col ∷ cols) seen next e h =
    restore_at k (start + 1) i cols seen (if col.serial then restored start seen next else next)
      (omega arith) h
    ∙ ap (after (highest i seen (pos 0))) (other_column i start seen next col.serial (ground arith))

-- An integer of a column is below `n`.
abbrev pub IsBelow : ℤ → Option Value → Type 0
IsBelow n none = Unit
IsBelow n (some v) = kind_eq v.k Value.int ≡ true → ltb_ℤ (int_of v.n) n ≡ true

IsAtMost-IsBelow :
    (high n : ℤ) (o : Option Value) → IsAtMost high o → ltb_ℤ high n ≡ true → IsBelow n o
IsAtMost-IsBelow high n none h k = tt
IsAtMost-IsBelow high n (some v) h k = λ e. ground (arith, h e)

-- The value that NextSerial gives.
abbrev given : ℤ → ℤ
given n = if ℤ_eq n (pos 0) then pos 1 else n

given_above :
    (high old : ℤ)
    → pos 0 ≤ℤ high
    → high ≤ℤ pos (half_word - 2)
    → pos 0 ≤ℤ old
    → ltb_ℤ high (given (after high old)) ≡ true
given_above (negsuc n) old lo hi h = ground arith
given_above (pos zero) (negsuc n) lo hi h = ground arith
given_above (pos zero) (pos zero) lo hi h = refl
given_above (pos zero) (pos (suc n)) lo hi h = ground arith
given_above (pos (suc n)) old lo hi h = ground arith

All-IsBelow :
    (ord : ℕ) (high n : ℤ) (seen : List Row)
    → ltb_ℤ high n ≡ true
    → All (λ row. IsAtMost high (get_elem? row ord)) seen
    → All (λ row. IsBelow n (get_elem? row ord)) seen
All-IsBelow ord high n [] h all = tt
All-IsBelow ord high n (row ∷ seen) h all =
    (IsAtMost-IsBelow high n (get_elem? row ord) all.0 h, All-IsBelow ord high n seen h all.1)

-- After RestoreSequences the value that NextSerial gives for a serial column is greater than every integer that
-- a row which the transaction sees has there, if none of those is the greatest int64 and the sequence
-- was not negative before.
pub next_serial_fresh :
    (m : TxManager) (tx : Tx) (t : Table) (ord : ℕ)
    → is_serial ord t.columns ≡ true
    → pos 0 ≤ℤ t.next_value ord
    → All (λ row. IsAtMost (pos (half_word - 2)) (get_elem? row ord)) (rows m tx t)
    → All
        (λ row. IsBelow (next_serial ord (restore_sequences m tx t)).1 (get_elem? row ord))
        (rows m tx t)
unfolding restore_sequences next_serial
next_serial_fresh m tx t ord serial start room =
    let seen = rows m tx t in
    let high = highest ord seen (pos 0) in
    let kept = restore_at ord 0 ord t.columns seen t.next_value (omega arith) serial in
    let above =
      given_above high (t.next_value ord) (highest_le ord seen (pos 0))
        (highest_bounded (pos (half_word - 2)) ord seen (pos 0) (omega arith) room) start in
    All-IsBelow ord high _ seen (rw kept above) (highest-IsAtMost ord seen (pos 0))
