-- ===== src/Scanner/Progress.antt =====
-- internal/scanner/scanner.go: every token takes a byte at least, so that Tokens comes to an end.
use lightsql.Common.{
  ℕ, zero, suc, ◌+◌, ◌≤◌, ◌<◌, ◌≡◌, refl, ap, ◌∙◌, Bool, true, false, ◌&&◌, ◌||◌, not, List, [],
  ◌∷◌, Option, none, some, ◌==◌, if◌then◌else◌, Bytes, bytes_eq, drop, length, arith, inl, inr, ◌⊎◌,
  Result, ok, err, ◌>>=◌, by_test, syntax_error,
}
use lightsql.Common.Digits.{is_digit}
use lightsql.Token.{Kind, number, string, quoted_ident, param, keywords, lookup_in, lookup, Token}
use lightsql.Scanner.Lexeme.{
  peek, is_ident_start, is_ident_part, next_is, skip_while, between, skip_number, string_body,
  quoted_body, dollar_quoted, atoi, fold_ascii, operators, match_operator, has_prefix,
}
use lightsql.Scanner.Consumes.{
  drop_le, skip_while_le, skip_while_lt, bytes_left, string_body_le, quoted_body_le,
  dollar_quoted_le, skip_number_lt,
}
use lightsql.Scanner.Munch.{operator_le}
use lightsql.Scanner.{
  Scanner, pos_of, Scanned, emit, scan_ident, scan_number, scan_string, scan_quoted_ident,
  scan_dollar_quoted, dollar_param, scan_dollar, question_param, scan_operator, scan_byte, is_eof,
}

abbrev pub is_param : Kind → Bool
is_param param = true
is_param _ = false

-- Neither the end nor a placeholder.
abbrev is_plain : Kind → Bool
is_plain kind = not (is_eof kind || is_param kind)

both : (a b : Bool) → a && b ≡ true → (a ≡ true) × (b ≡ true)
both a b h = ground arith

neither : (a b : Bool) → not (a || b) ≡ true → (a ≡ false) × (b ≡ false)
neither a b h = ground arith

all_plain : List (Bytes × Kind) → Bool
all_plain [] = true
all_plain ((text, kind) ∷ rest) = is_plain kind && all_plain rest

lookup_in-plain :
    (table : List (Bytes × Kind)) (name : Bytes)
    → all_plain table ≡ true
    → is_plain (lookup_in table name) ≡ true
unfolding lookup_in all_plain
lookup_in-plain [] name h = refl
lookup_in-plain ((text, kind) ∷ rest) name h =
    let (here, there) = both (is_plain kind) (all_plain rest) h in
    by_test (λ k. is_plain k ≡ true) (bytes_eq text name) kind (lookup_in rest name) (λ _. here)
      (λ _. lookup_in-plain rest name there)

lookup-plain : (name : Bytes) → is_plain (lookup name) ≡ true
unfolding lookup
lookup-plain name = lookup_in-plain keywords name (unfold all_plain in refl)

match_operator-plain :
    (table : List (Bytes × Kind)) (s : Bytes) (kind : Kind) (size : ℕ)
    → all_plain table ≡ true
    → match_operator table s ≡ some (kind, size)
    → is_plain kind ≡ true
unfolding match_operator all_plain
match_operator-plain [] s kind size h e = ground arith
match_operator-plain ((text, k) ∷ rest) s kind size h e =
    let (here, there) = both (is_plain k) (all_plain rest) h in
    by_test (λ (o : Option (Kind × ℕ)). o ≡ some (kind, size) → is_plain kind ≡ true)
      (has_prefix s text) (some (k, length text)) (match_operator rest s)
      (λ _ same. cc (here, same)) (λ _ later. match_operator-plain rest s kind size there later) e

-- What a token that begins with the byte `c` does to the placeholders, from what was used before and the
-- ordinal that comes next.
pub data Places (c : ℕ) (used_dollar used_qm : Bool) (next_ord : ℕ) (tok : Token) (s : Scanner)
    : Type 0 where
  no_param :
      is_param tok.kind ≡ false
      → s.used_dollar ≡ used_dollar
      → s.used_qm ≡ used_qm
      → s.next_ord ≡ next_ord
      → Places c used_dollar used_qm next_ord tok s
  by_dollar :
      c ≡ b'$'
      → is_param tok.kind ≡ true
      → used_qm ≡ false
      → s.used_dollar ≡ true
      → s.used_qm ≡ false
      → Places c used_dollar used_qm next_ord tok s
  by_question :
      c ≡ b'?'
      → is_param tok.kind ≡ true
      → used_dollar ≡ false
      → s.used_dollar ≡ false
      → s.used_qm ≡ true
      → tok.ord ≡ next_ord
      → s.next_ord ≡ next_ord + 1
      → Places c used_dollar used_qm next_ord tok s

-- A token that is not the last one stands between the position before and the one after it.
abbrev pub Advances : ℕ → Scanner → Scanned → Type 0
Advances c s (err e) = Unit
Advances c s (ok (tok, s')) =
    (is_eof tok.kind ≡ false)
    × (s'.src ≡ s.src)
    × (length s'.rest < length s.rest)
    × (pos_of s ≤ tok.pos)
    × (tok.pos < pos_of s')
    × Places c s.used_dollar s.used_qm s.next_ord tok s'

emit-Advances :
    (c : ℕ) (s : Scanner) (kind : Kind) (val : Bytes) (ord : ℕ) (rest : Bytes)
    → length s.rest ≤ length s.src
    → is_plain kind ≡ true
    → length rest < length s.rest
    → Advances c s (emit s kind val ord rest)
emit-Advances c s kind val ord rest le e lt = (
  (neither (is_eof kind) (is_param kind) e).0,
  refl,
  lt,
  omega arith,
  omega arith,
  no_param (neither (is_eof kind) (is_param kind) e).1 refl refl refl,
)

body-Advances :
    (c : ℕ) (s : Scanner) (r : Result (Bytes × Bytes))
    → length s.rest ≤ length s.src
    → bytes_left r < length s.rest
    → Advances c s (r >>= λ (val, rest). emit s string val 0 rest)
body-Advances c s (err e) le lt = tt
body-Advances c s (ok (val, rest)) le lt = emit-Advances c s string val 0 rest le refl lt

-- A token that lies behind a later state lies behind an earlier one.
pub further-Advances :
    (c : ℕ) (s : Scanner) (rest : Bytes) (r : Scanned)
    → length rest ≤ length s.rest
    → Advances c (record s { rest = rest }) r
    → Advances c s r
further-Advances c s rest (err e) shorter a = tt
further-Advances c s rest (ok (tok, end)) shorter (not_last, e, lt, from, to, placed) =
    (not_last, e, omega (arith, lt, shorter), omega (arith, from, shorter), to, placed)

same_byte : (a b : ℕ) → a == b ≡ true → a ≡ b
same_byte a b h = ground arith

module _ (s : Scanner) (c : ℕ) (cs : Bytes) (here : s.rest ≡ c ∷ cs)
    (le : length s.rest ≤ length s.src) where
  one_less : length (drop 1 s.rest) < length s.rest
  one_less = rw here (omega arith)

  scan_string-Advances : (escapes : Bool) → Advances c s (scan_string escapes s)
  unfolding scan_string
  scan_string-Advances escapes =
      body-Advances c s (string_body escapes (drop 1 s.rest)) le
        (omega (arith, string_body_le escapes (drop 1 s.rest), one_less))

  scan_quoted_ident-Advances : Advances c s (scan_quoted_ident s)
  unfolding scan_quoted_ident
  scan_quoted_ident-Advances =
      go (quoted_body (drop 1 s.rest)) (omega (arith, quoted_body_le (drop 1 s.rest), one_less))
    where
      go :
          (r : Result (Bytes × Bytes))
          → bytes_left r < length s.rest
          → Advances c s (
              r >>= λ (val, rest). elim val [
                | [] ↦ err syntax_error
                | d ∷ ds ↦ emit s quoted_ident (d ∷ ds) 0 rest
              ])
      go (err e) lt = tt
      go (ok ([], rest)) lt = tt
      go (ok (d ∷ ds, rest)) lt = emit-Advances c s quoted_ident (d ∷ ds) 0 rest le refl lt

  scan_dollar_quoted-Advances : Advances c s (scan_dollar_quoted s)
  unfolding scan_dollar_quoted
  scan_dollar_quoted-Advances =
      body-Advances c s (dollar_quoted s.rest) le (omega (arith, dollar_quoted_le s.rest, one_less))

  dollar_param-Advances : c ≡ b'$' → Advances c s (dollar_param s)
  unfolding dollar_param
  dollar_param-Advances sign =
      let rest = skip_while is_digit (drop 1 s.rest) in
      go (atoi (between (drop 1 s.rest) rest)) rest
        (omega (arith, skip_while_le is_digit (drop 1 s.rest), one_less))
    where
      go :
          (r : Option ℕ) (rest : Bytes)
          → length rest < length s.rest
          → Advances c s (elim r [
            | none ↦ err syntax_error
            | some ord ↦
                if ord == 0
                then err syntax_error
                else if s.used_qm
                then err syntax_error
                else emit (record s { used_dollar = true }) param [] ord rest
          ])
      go none rest lt = tt
      go (some ord) rest lt =
          by_test (Advances c s) (ord == 0) _ _ (λ _. tt)
            (λ _.
              by_test (Advances c s) s.used_qm _ _ (λ _. tt)
                (λ no_qm. (
                  refl,
                  refl,
                  lt,
                  omega arith,
                  omega (arith, le, lt),
                  by_dollar sign refl no_qm refl no_qm,
                )))

  scan_dollar-Advances : c ≡ b'$' → Advances c s (scan_dollar s)
  unfolding scan_dollar
  scan_dollar-Advances sign =
      by_test (Advances c s) (is_digit (peek s.rest)) _ _ (λ _. dollar_param-Advances sign)
        (λ _. scan_dollar_quoted-Advances)

  question_param-Advances : c ≡ b'?' → Advances c s (question_param s)
  unfolding question_param
  question_param-Advances mark =
      by_test (Advances c s) s.used_dollar _ _ (λ _. tt)
        (λ no_dollar. (
          refl,
          refl,
          one_less,
          omega arith,
          omega (arith, le, one_less),
          by_question mark refl no_dollar no_dollar refl refl refl,
        ))

  scan_operator-Advances : Advances c s (scan_operator s)
  unfolding scan_operator
  scan_operator-Advances = go (match_operator operators s.rest) refl
    where
      drop_lt : (n : ℕ) (t : Bytes) → 0 < n → 0 < length t → length (drop n t) < length t
      drop_lt zero t h k = ground arith
      drop_lt (suc n) [] h k = ground arith
      drop_lt (suc n) (d ∷ t) h k = omega (arith, drop_le n t)

      go :
          (r : Option (Kind × ℕ))
          → match_operator operators s.rest ≡ r
          → Advances c s (elim r [
            | none ↦ err syntax_error
            | some (kind, size) ↦ emit s kind [] 0 (drop size s.rest)
          ])
      go none e = tt
      go (some (kind, size)) e =
          let (some_byte, fits) = operator_le s.rest kind size e in
          emit-Advances c s kind [] 0 (drop size s.rest) le
            (match_operator-plain operators s.rest kind size (unfold all_plain in refl) e)
            (drop_lt size s.rest some_byte (omega (arith, some_byte, fits)))

  scan_ident-Advances :
      (to_lower : Bytes → Bytes) → is_ident_start c ≡ true → Advances c s (scan_ident to_lower s)
  unfolding scan_ident
  scan_ident-Advances to_lower h =
      let rest = skip_while is_ident_part s.rest in
      let name = fold_ascii to_lower (between s.rest rest) in
      emit-Advances c s (lookup name) name 0 rest le (lookup-plain name)
        (ap_lt (skip_while_lt is_ident_part c cs (rw h refl)))
    where
      ap_lt :
          length (skip_while is_ident_part (c ∷ cs)) < suc (length cs)
          → length (skip_while is_ident_part s.rest) < length s.rest
      ap_lt k = rw here k

  scan_number-Advances : (is_digit c ≡ true) ⊎ ((c == b'.') ≡ true) → Advances c s (scan_number s)
  unfolding scan_number
  scan_number-Advances h =
      by_test (Advances c s) (next_is is_ident_start (skip_number s.rest)) _ _ (λ _. tt)
        (λ _.
          emit-Advances c s number (between s.rest (skip_number s.rest)) 0 (skip_number s.rest) le
            refl (rw here (omega (arith, skip_number_lt c cs h))))

  no_peek :
      (p : ℕ) → p ≡ 0 → p == b'\'' ≡ true → length (drop 1 (drop 1 s.rest)) < length (drop 1 s.rest)
  no_peek p e h = ground arith

  quote_less :
      (ds : Bytes)
      → s.rest ≡ c ∷ ds
      → peek s.rest == b'\'' ≡ true
      → length (drop 1 (drop 1 s.rest)) < length (drop 1 s.rest)
  quote_less [] e h = no_peek (peek s.rest) (ap peek e ∙ unfold peek in refl) h
  quote_less (d ∷ ds) e h = rw e (omega arith)

  escape_string-Advances :
      peek s.rest == b'\'' ≡ true
      → Advances c s (scan_string true (record s { rest = drop 1 s.rest }))
  escape_string-Advances h =
      let s' : Scanner = record s { rest = drop 1 s.rest } in
      further-Advances c s (drop 1 s.rest) (scan_string true s') (omega (arith, one_less)) (
        unfold scan_string in
        body-Advances c s' (string_body true (drop 1 (drop 1 s.rest))) (omega (arith, one_less, le))
          (omega (arith, string_body_le true (drop 1 (drop 1 s.rest)), quote_less cs here h)))

  pub scan_byte-Advances : (to_lower : Bytes → Bytes) → Advances c s (scan_byte to_lower s c)
  unfolding scan_byte
  scan_byte-Advances to_lower =
      by_test (Advances c s) (((c == b'E') || (c == b'e')) && peek s.rest == b'\'') _ _
        (λ h. escape_string-Advances (ground (arith, h)))
        (λ _. by_test (Advances c s) (is_ident_start c) _ _ (scan_ident-Advances to_lower) (λ _.
          by_test (Advances c s) (is_digit c) _ _ (λ h. scan_number-Advances (inl h))
            (λ _.
              by_test (Advances c s) (c == b'.' && is_digit (peek s.rest)) _ _
                (λ h. scan_number-Advances (inr (ground (arith, h))))
                (λ _.
                  by_test (Advances c s) (c == b'\'') _ _ (λ _. scan_string-Advances false)
                    (λ _.
                      by_test (Advances c s) (c == b'"') _ _ (λ _. scan_quoted_ident-Advances)
                        (λ _.
                          by_test (Advances c s) (c == b'$') _ _
                            (λ h. scan_dollar-Advances (same_byte c b'$' h))
                            (λ _.
                              by_test (Advances c s) (c == b'?') _ _
                                (λ h. question_param-Advances (same_byte c b'?' h))
                                (λ _. scan_operator-Advances))))))))
