-- ===== src/Catalog/Row/Fit.antt =====
-- What a row that passed checkRow satisfies (internal/catalog/catalog.go).
use lightsql.Common.{
  All, ap, ◌∙◌, ℕ, ◌+◌, ◌-◌, ◌^◌, ◌≤◌, ◌<◌, ◌≡◌, refl, sym, ◌⊎◌, inl, inr, Bool, true, false, ◌&&◌,
  List, [], ◌∷◌, Option, none, some, leb, ltb, arith, Bool-cases, Result, ok, err,
  numeric_value_out_of_range,
}
use lightsql.Common.Int.{mag}
use lightsql.Types.Value
use lightsql.Types.Value.{Value, Kind, kind_eq}
use lightsql.Types.Decimal.{Decimal, round}
use mathlib.Core.Path.{subst}
use lightsql.Types.Word.{is_int64}
use lightsql.Types.Numeric.{max_small_scale, numeric, as_decimal}
use lightsql.Types.Compare.{is_null}
use lightsql.Exec.Eval.{Row}
use lightsql.Catalog.Row.{
  word32, fit_decimal, Column, digits_before, in_precision, fit_numeric, check_cell, with_cell,
  check_row,
}
use lightsql.Catalog.Row.Numeric.{digits_before_le, digits_before_lt}

scale-round : (d : Decimal) (s : ℕ) → (round d s).scale ≡ s
unfolding round
scale-round d s = elim (Bool-cases (leb d.scale s)) [ inl e ↦ rw e refl | inr e ↦ rw e refl ]

is_null-numeric : (d : Decimal) → is_null (numeric d) ≡ false
unfolding numeric
is_null-numeric d = elim (Bool-cases (leb d.scale max_small_scale && is_int64 d.unscaled)) [
  | inl e ↦ rw e refl
  | inr e ↦ rw e refl
]

digits_within :
    (r : Decimal) (p : ℕ) → r.scale ≤ p → mag r.unscaled < 10 ^ p → digits_before r + r.scale ≤ p
digits_within r p le h =
    let e : p ≡ p - r.scale + r.scale = omega arith in
    omega (arith, digits_before_le r (p - r.scale) (subst (λ n. mag r.unscaled < 10 ^ n) e h))

digits_beyond :
    (r : Decimal) (p : ℕ) → r.scale ≤ p → 10 ^ p ≤ mag r.unscaled → p < digits_before r + r.scale
digits_beyond r p le h =
    let e : p ≡ p - r.scale + r.scale = omega arith in
    omega (arith, digits_before_lt r (p - r.scale) (subst (λ n. 10 ^ n ≤ mag r.unscaled) e h))

-- The outcome for the decimal `r`: stored, or an overflow.
abbrev pub Precise : ℕ → ℕ → Decimal → Result Value → Type 0
Precise precision scale r outcome =
    ((outcome ≡ ok (numeric r)) × (scale ≤ precision) × (mag r.unscaled < 10 ^ precision))
    ⊎ ((outcome ≡ err numeric_value_out_of_range)
        × ((precision < scale) ⊎ (10 ^ precision ≤ mag r.unscaled)))

in_precision_lem :
    (precision : ℕ) (r : Decimal) → Precise precision r.scale r (in_precision precision r.scale r)
unfolding in_precision
in_precision_lem precision r = elim (Bool-cases (ltb precision (digits_before r + r.scale))) [
  | inl e ↦ rw e (
      inr (
        refl,
        elim (Bool-cases (ltb precision r.scale)) [
          | inl small ↦ inl (ground arith)
          | inr room ↦ elim (Bool-cases (ltb (mag r.unscaled) (10 ^ precision))) [
            | inl fits ↦
                absurd (ground (arith, digits_within r precision (ground arith) (ground arith)))
            | inr big ↦ inr (ground arith)
          ]
        ],
      ))
  | inr e ↦ rw e (
      inl (
        refl,
        ground arith,
        elim (Bool-cases (ltb (mag r.unscaled) (10 ^ precision))) [
          | inl fits ↦ ground arith
          | inr big ↦
              absurd (ground (arith, digits_beyond r precision (ground arith) (ground arith)))
        ],
      ))
]

word32-small : (scale : ℕ) → scale < 2 ^ 31 → word32 scale ≡ scale
unfolding word32
word32-small scale h = omega arith

below_half : (scale : ℕ) → scale < 2 ^ 31 → ltb scale (2 ^ 31) ≡ true
below_half scale h = ground arith

fit_decimal-small :
    (d : Decimal) (precision scale : ℕ)
    → scale < 2 ^ 31
    → fit_decimal precision scale scale d ≡ some (in_precision precision scale (round d scale))
unfolding fit_decimal
fit_decimal-small d precision scale small = rw (below_half scale small) refl

-- A decimal that goes into a column NUMERIC(precision, scale), the scale below 2^31, is rounded to the
-- scale, and it is stored exactly if the scale is at most the precision and its digits, read without
-- the point, are a number below ten to the precision; otherwise it is an overflow. So where the scale is greater than the precision
-- everything is an overflow, zero included.
pub fit_numeric_lem :
    (v : Value) (d : Decimal) (precision scale : ℕ) (mods : List ℕ)
    → scale < 2 ^ 31
    → as_decimal v ≡ some d
    → (outcome : Result Value) × (fit_numeric v (precision ∷ scale ∷ mods) ≡ some outcome)
      × Precise precision scale (round d scale) outcome
unfolding fit_numeric
fit_numeric_lem v d precision scale mods small h = (
  in_precision precision scale (round d scale),
  rw (fit_numeric, h)
      (ap (λ w. fit_decimal precision scale w d) (word32-small scale small)
        ∙ fit_decimal-small d precision scale small),
  subst (λ s. Precise precision s (round d scale) (in_precision precision s (round d scale)))
      (scale-round d scale) (in_precision_lem precision (round d scale)),
)

-- What a numeric column of a precision and a scale holds.
abbrev Bounded : Value → List ℕ → Type 0
Bounded v (precision ∷ scale ∷ mods) =
    (d : Decimal) × (v ≡ numeric d) × (d.scale ≡ scale) × (mag d.unscaled < 10 ^ precision)
Bounded v _ = Unit

-- The declared scale is an int32.
abbrev pub IsScaled : List ℕ → Type 0
IsScaled (precision ∷ scale ∷ mods) = scale < 2 ^ 31
IsScaled _ = Unit

-- A cell that a column can hold.
abbrev pub Holds : Column → Value → Type 0
Holds col v =
    (col.not_null ≡ true → is_null v ≡ false)
    × (kind_eq col.kind Value.numeric ≡ true → is_null v ≡ false → Bounded v col.mods)

-- A row with a cell for each column.
abbrev pub Fits : List Column → Row → Type 0
Fits [] row = Unit
Fits (col ∷ cols) [] = ⊥
Fits (col ∷ cols) (v ∷ row) = Holds col v × Fits cols row

-- The value of an outcome without an error or a panic satisfies `P`.
abbrev pub Gives : {A : Type 0} → (A → Type 0) → Option (Result A) → Type 0
Gives P (some (ok a)) = P a
Gives P _ = Unit

fit_numeric-Bounded :
    (mods : List ℕ) (v : Value)
    → IsScaled mods
    → is_null v ≡ false
    → Gives (λ w. (is_null w ≡ false) × Bounded w mods) (fit_numeric v mods)
unfolding fit_numeric
fit_numeric-Bounded [] v small n = (n, tt)
fit_numeric-Bounded (p ∷ []) v small n = (n, tt)
fit_numeric-Bounded (p ∷ s ∷ mods) v small n = by_decimal (as_decimal v) refl
  where
    Good : Option (Result Value) → Type 0
    Good = Gives (λ w. (is_null w ≡ false) × Bounded w (p ∷ s ∷ mods))

    rounded :
        (d : Decimal) (outcome : Result Value)
        → Precise p s (round d s) outcome
        → Good (some outcome)
    rounded d outcome (inl (e, le, lt)) =
        subst (λ o. Good (some o)) (sym e)
          (is_null-numeric (round d s), (round d s, refl, scale-round d s, lt))
    rounded d outcome (inr (e, big)) = subst (λ o. Good (some o)) (sym e) tt

    by_decimal : (o : Option Decimal) → as_decimal v ≡ o → Good (fit_numeric v (p ∷ s ∷ mods))
    by_decimal none e = rw (fit_numeric, e) tt
    by_decimal (some d) e =
        let (outcome, same, precise) = fit_numeric_lem v d p s mods small e in
        subst Good (sym same) (rounded d outcome precise)

weaken-Gives :
    {A : Type 0} (P R : A → Type 0) (o : Option (Result A))
    → ((a : A) → P a → R a)
    → Gives P o
    → Gives R o
weaken-Gives P R (some (ok a)) f h = f a h
weaken-Gives P R (some (err c)) f h = tt
weaken-Gives P R none f h = tt

check_cell-Holds :
    (col : Column) (v : Value) → IsScaled col.mods → Gives (Holds col) (check_cell col v)
unfolding check_cell
check_cell-Holds col v small = elim (Bool-cases (is_null v)) [
  | inl null ↦ null_cell null col.not_null refl
  | inr full ↦ full_cell full (kind_eq col.kind Value.numeric) refl
]
  where
    null_cell :
        is_null v ≡ true → (b : Bool) → col.not_null ≡ b → Gives (Holds col) (check_cell col v)
    null_cell null true e = rw (check_cell, null, e) tt
    null_cell null false e = rw (check_cell, null, e) ((λ t. ground arith), λ k f. ground arith)

    full_cell :
        is_null v ≡ false
        → (b : Bool) → kind_eq col.kind Value.numeric ≡ b
        → Gives (Holds col) (check_cell col v)
    full_cell full true e =
        rw (check_cell, full, e)
          (weaken-Gives _ (Holds col) (fit_numeric v col.mods) (λ w (n, b). ((λ t. n), λ k f. b))
            (fit_numeric-Bounded col.mods v small full))
    full_cell full false e = rw (check_cell, full, e) ((λ t. full), λ k f. ground arith)

with_cell-Gives :
    (P : Value → Type 0) (R : Row → Type 0) (x : Option (Result Value)) (y : Option (Result Row))
    → Gives P x
    → Gives R y
    → Gives (λ row. (v : Value) × (rest : Row) × (row ≡ v ∷ rest) × P v × R rest) (with_cell x y)
with_cell-Gives P R (some (ok v)) (some (ok row)) h k = (v, row, refl, h, k)
with_cell-Gives P R (some (ok v)) (some (err c)) h k = tt
with_cell-Gives P R (some (ok v)) none h k = tt
with_cell-Gives P R (some (err c)) y h k = tt
with_cell-Gives P R none y h k = tt

-- A row that passed the check fits the columns.
pub check_row-Fits :
    (cols : List Column) (row : Row)
    → All (λ col. IsScaled col.mods) cols
    → Gives (Fits cols) (check_row cols row)
unfolding check_row
check_row-Fits [] row small = tt
check_row-Fits (col ∷ cols) [] small = tt
check_row-Fits (col ∷ cols) (v ∷ row) small =
    weaken-Gives _ (Fits (col ∷ cols)) (with_cell (check_cell col v) (check_row cols row))
      (λ whole (w, rest, e, h, k). subst (Fits (col ∷ cols)) (sym e) (h, k))
      (with_cell-Gives (Holds col) (Fits cols) (check_cell col v) (check_row cols row)
        (check_cell-Holds col v small.0) (check_row-Fits cols row small.1))
