-- ===== src/Scanner/Placeholders.antt =====
-- internal/scanner/scanner.go: the two kinds of placeholders, and the ordinals of those written ?.
use lightsql.Common.{
  ℕ, zero, suc, ◌+◌, ◌≤◌, ◌<◌, ◌≡◌, refl, sym, ap, ◌∙◌, Bool, true, false, List, [], ◌∷◌, All,
  Option, none, some, if◌then◌else◌, Bool-cases, Bytes, length, arith, inl, inr, ◌⊎◌, Result, ok,
  err,
}
use mathlib.Core.Path.{subst}
use lightsql.Token.{Token}
use lightsql.Scanner.{Scanner, new, Scanned, scan, is_eof, before, scan_rounds, tokens}
use lightsql.Scanner.Progress.{is_param, Places, no_param, by_dollar, by_question}
use lightsql.Scanner.Ends.{next_byte, Moves, scan-Moves}

-- The ordinals of the placeholders, in order.
unfoldable pub ordinals : List Token → List ℕ
ordinals [] = []
ordinals (tok ∷ toks) =
    let rest = ordinals toks in if is_param tok.kind then tok.ord ∷ rest else rest

unfoldable pub count_up : ℕ → ℕ → List ℕ
count_up n zero = []
count_up n (suc k) = n ∷ count_up (suc n) k

-- The bytes at which the placeholders of a text begin, of as many tokens as `f` at most: a ? or a $.
unfoldable pub param_bytes : (Bytes → Bytes) → ℕ → Scanner → List ℕ
unfolding scan
param_bytes to_lower zero s = []
param_bytes to_lower (suc f) s = elim (scan to_lower s) [
  | err e ↦ []
  | ok (tok, s') ↦
      let rest = param_bytes to_lower f s' in
      elim (is_eof tok.kind) [
        | true ↦ []
        | false ↦ if is_param tok.kind then next_byte s ∷ rest else rest
      ]
]

-- The placeholders are all written $n, or all ?, and then numbered from the ordinal that comes next. What was
-- used before leaves the other kind no place.
abbrev OneKind : Bool → Bool → ℕ → List ℕ → List ℕ → Type 0
OneKind used_dollar used_qm next_ord signs ords =
    (All (λ c. c ≡ b'$') signs × (used_qm ≡ true → (signs ≡ []) × (ords ≡ [])))
    ⊎ (All (λ c. c ≡ b'?') signs
        × (ords ≡ count_up next_ord (length ords))
        × (used_dollar ≡ true → signs ≡ []))

conflict : (P : Type 0) (b : Bool) → b ≡ true → b ≡ false → P
conflict P b h k = ground arith

All-none : (P : ℕ → Type 0) (xs : List ℕ) → xs ≡ [] → All P xs
All-none P xs e = subst (All P) (sym e) tt

by_question-OneKind :
    (c n o n' : ℕ) (ud uq : Bool) (signs ords : List ℕ)
    → c ≡ b'?'
    → ud ≡ false
    → o ≡ n
    → n' ≡ n + 1
    → OneKind false true n' signs ords
    → OneKind ud uq n (c ∷ signs) (o ∷ ords)
unfolding count_up
by_question-OneKind c n o n' ud uq signs ords e nod eo en (inl (dollars, none_left)) =
    let (no_signs, no_ords) = none_left refl in
    inr (
      (e, All-none (λ c. c ≡ b'?') signs no_signs),
      rw (no_ords, eo) refl,
      λ h. conflict _ ud h nod,
    )
by_question-OneKind c n o n' ud uq signs ords e nod eo en (inr (marks, in_order, _)) = inr (
  (e, marks),
  ap (λ t. o ∷ t) in_order
      ∙ rw (eo, en) (ap (λ (j : ℕ). n ∷ count_up j (length ords)) (omega arith)),
  λ h. conflict _ ud h nod,
)

by_dollar-OneKind :
    (c n o n' : ℕ) (ud uq : Bool) (signs ords : List ℕ)
    → c ≡ b'$'
    → uq ≡ false
    → OneKind true false n' signs ords
    → OneKind ud uq n (c ∷ signs) (o ∷ ords)
by_dollar-OneKind c n o n' ud uq signs ords e noq (inl (dollars, _)) =
    inl ((e, dollars), λ h. conflict _ uq h noq)
by_dollar-OneKind c n o n' ud uq signs ords e noq (inr (marks, _, none_left)) =
    inl ((e, All-none (λ c. c ≡ b'$') signs (none_left refl)), λ h. conflict _ uq h noq)

-- A list with one more in front, if a token is a placeholder.
abbrev with_param : Token → ℕ → List ℕ → List ℕ
with_param tok n rest = if is_param tok.kind then n ∷ rest else rest

token-OneKind :
    (c n : ℕ) (ud uq : Bool) (tok : Token) (s : Scanner) (signs ords : List ℕ)
    → Places c ud uq n tok s
    → OneKind s.used_dollar s.used_qm s.next_ord signs ords
    → OneKind ud uq n (with_param tok c signs) (with_param tok tok.ord ords)
token-OneKind c n ud uq tok s signs ords (no_param k d q o) h = rw (k, sym d, sym q, sym o) h
token-OneKind c n ud uq tok s signs ords (by_dollar e k noq d q) h = rw k (
    by_dollar-OneKind c n tok.ord s.next_ord ud uq signs ords e noq (
      subst (λ b. OneKind true b s.next_ord signs ords) q
        (subst (λ b. OneKind b s.used_qm s.next_ord signs ords) d h)))
token-OneKind c n ud uq tok s signs ords (by_question e k nod d q o m) h = rw k (
    by_question-OneKind c n tok.ord s.next_ord ud uq signs ords e nod o m (
      subst (λ b. OneKind false b s.next_ord signs ords) q
        (subst (λ b. OneKind b s.used_qm s.next_ord signs ords) d h)))

-- The same of what is left of the text, which has the placeholders `signs`.
abbrev AllOneKind : Scanner → List ℕ → Option (Result (List Token × Scanner)) → Type 0
AllOneKind s signs none = Unit
AllOneKind s signs (some (err e)) = Unit
AllOneKind s signs (some (ok (toks, end))) =
    OneKind s.used_dollar s.used_qm s.next_ord signs (ordinals toks)
    × (length signs ≡ length (ordinals toks))

length-with_param :
    (tok : Token) (m n : ℕ) (xs ys : List ℕ)
    → length xs ≡ length ys
    → length (with_param tok m xs) ≡ length (with_param tok n ys)
length-with_param tok m n xs ys e = elim (Bool-cases (is_param tok.kind)) [
  | inl k ↦ rw k (ap suc e)
  | inr k ↦ rw k e
]

before-AllOneKind :
    (s s' : Scanner) (tok : Token) (signs : List ℕ) (o : Option (Result (List Token × Scanner)))
    → Places (next_byte s) s.used_dollar s.used_qm s.next_ord tok s'
    → AllOneKind s' signs o
    → AllOneKind s
        (with_param tok (next_byte s) signs)
        (elim o [ none ↦ none | some r ↦ some (before tok r) ])
unfolding ordinals
before-AllOneKind s s' tok signs none p h = tt
before-AllOneKind s s' tok signs (some (err e)) p h = tt
before-AllOneKind s s' tok signs (some (ok (toks, end))) p (one_kind, paired) = (
  token-OneKind (next_byte s) s.next_ord s.used_dollar s.used_qm tok s' signs (ordinals toks) p
      one_kind,
  length-with_param tok (next_byte s) tok.ord signs (ordinals toks) paired,
)

round-AllOneKind :
    (s : Scanner) (r : Scanned) (more : Scanner → Option (Result (List Token × Scanner)))
    (signs : Scanner → List ℕ)
    → Moves s r
    → ((s' : Scanner)
        → s'.src ≡ s.src
        → length s'.rest < length s.rest
        → AllOneKind s' (signs s') (more s'))
    → AllOneKind s
        (elim r [
          | err e ↦ []
          | ok (tok, s') ↦ elim (is_eof tok.kind) [
            | true ↦ []
            | false ↦ with_param tok (next_byte s) (signs s')
          ]
        ])
        (elim r [
          | err e ↦ some (err e)
          | ok (tok, s') ↦ elim (is_eof tok.kind) [
            | true ↦ some (ok (tok ∷ [], s'))
            | false ↦ elim (more s') [ none ↦ none | some t ↦ some (before tok t) ]
          ]
        ])
unfolding ordinals
round-AllOneKind s (err e) more signs m h = tt
round-AllOneKind s (ok (tok, s')) more signs (inl (is_last, same, none_left, at_end, k)) h =
    rw is_last (rw k (inl (tt, λ _. (refl, refl)), refl))
round-AllOneKind s (ok (tok, s')) more signs (inr (not_last, same, lt, from, to, placed)) h =
    rw not_last (before-AllOneKind s s' tok (signs s') (more s') placed (h s' same lt))

scan_rounds-AllOneKind :
    (to_lower : Bytes → Bytes) (f : ℕ) (s : Scanner)
    → length s.rest ≤ length s.src
    → AllOneKind s (param_bytes to_lower f s) (scan_rounds to_lower f s)
unfolding scan_rounds param_bytes
scan_rounds-AllOneKind to_lower zero s le = tt
scan_rounds-AllOneKind to_lower (suc f) s le =
    round-AllOneKind s (scan to_lower s) (scan_rounds to_lower f) (param_bytes to_lower f)
      (scan-Moves to_lower s le)
      (λ s' same less.
        scan_rounds-AllOneKind to_lower f s'
          (omega (arith, ap (λ (t : Bytes). length t) same, less, le)))

-- In a text that Tokens scans to its end the tokens that are placeholders begin with a $, all of them, or
-- all with a ?, and then their ordinals are 1, 2, 3, ... in their order.
pub tokens_placeholders :
    (to_lower : Bytes → Bytes) (src : Bytes) (toks : List Token) (end : Scanner)
    → tokens to_lower src ≡ some (ok (toks, end))
    → let signs = param_bytes to_lower (suc (length src)) (new src) in
      (length signs ≡ length (ordinals toks))
      × (All (λ c. c ≡ b'$') signs
          ⊎ (All (λ c. c ≡ b'?') signs × (ordinals toks ≡ count_up 1 (length (ordinals toks)))))
unfolding tokens
tokens_placeholders to_lower src toks end h =
    let (placed, paired) =
      subst (AllOneKind (new src) (param_bytes to_lower (suc (length src)) (new src))) h
        (scan_rounds-AllOneKind to_lower (suc (length src)) (new src) (omega arith)) in
    (paired, one_kind placed)
  where
    one_kind :
        {signs ords : List ℕ}
        → OneKind false false 1 signs ords
        → All (λ c. c ≡ b'$') signs
          ⊎ (All (λ c. c ≡ b'?') signs × (ords ≡ count_up 1 (length ords)))
    one_kind (inl (dollars, _)) = inl dollars
    one_kind (inr (marks, in_order, _)) = inr (marks, in_order)
