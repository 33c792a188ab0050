-- ===== src/Scanner/Quote.antt =====
-- A quoted literal, as internal/catalog/system.go prints it, and a delimited identifier are scanned back as
-- one token of internal/scanner/scanner.go.
use lightsql.Common.{
  ℕ, ◌≡◌, refl, ap, ◌∙◌, Bool, false, [], ◌∷◌, ◌++◌, ◌==◌, if◌then◌else◌, Bytes, arith, Bool-cases,
  inl, inr, ◌⊎◌, ok, err, ◌>>=◌, syntax_error,
}
use lightsql.Token.{string, quoted_ident}
use lightsql.Scanner.Lexeme.{
  peek, next_is, skip_rounds, skip_space_and_comments, string_body, quoted_body, push,
}
use lightsql.Scanner.{Scanner, emit, scan_string, scan_quoted_ident, scan_byte, scan_token, scan}

-- `strings.ReplaceAll(s, q, qq)` for a single byte `q`.
unfoldable pub double : ℕ → Bytes → Bytes
double q [] = []
double q (c ∷ s) = let rest = double q s in if c == q then q ∷ q ∷ rest else c ∷ rest

-- The case of a string literal in `defaultText`.
unfoldable pub quote_literal : Bytes → Bytes
unfolding double
quote_literal val = b'\'' ∷ double b'\'' val ++ b'\'' ∷ []

-- The form of a delimited identifier.
unfoldable pub quote_ident : Bytes → Bytes
unfolding double
quote_ident val = b'"' ∷ double b'"' val ++ b'"' ∷ []

abbrev pub is_quote : ℕ → Bool
is_quote c = c == b'\''

abbrev pub is_double_quote : ℕ → Bool
is_double_quote c = c == b'"'

string_body-plain :
    (c : ℕ) (s : Bytes)
    → c == b'\'' ≡ false
    → string_body false (c ∷ s) ≡ push c (string_body false s)
unfolding string_body
string_body-plain c [] h = rw (string_body, h) refl
string_body-plain c (d ∷ s) h = rw (string_body, h) refl

string_body-close :
    (tail : Bytes)
    → next_is is_quote tail ≡ false
    → string_body false (b'\'' ∷ tail) ≡ ok ([], tail)
unfolding string_body
string_body-close [] h = refl
string_body-close (d ∷ tail) h = let e : d == b'\'' ≡ false = h in rw (string_body, e) refl

quoted_body-plain :
    (c : ℕ) (s : Bytes) → c == b'"' ≡ false → quoted_body (c ∷ s) ≡ push c (quoted_body s)
unfolding quoted_body
quoted_body-plain c [] h = rw (quoted_body, h) refl
quoted_body-plain c (d ∷ s) h = rw (quoted_body, h) refl

quoted_body-close :
    (tail : Bytes)
    → next_is is_double_quote tail ≡ false
    → quoted_body (b'"' ∷ tail) ≡ ok ([], tail)
unfolding quoted_body
quoted_body-close [] h = refl
quoted_body-close (d ∷ tail) h = let e : d == b'"' ≡ false = h in rw (quoted_body, e) refl

string_body-pair :
    (s : Bytes) → string_body false (b'\'' ∷ b'\'' ∷ s) ≡ push b'\'' (string_body false s)
unfolding string_body
string_body-pair s = refl

string_body-double :
    (val tail : Bytes)
    → next_is is_quote tail ≡ false
    → string_body false ((double b'\'' val ++ b'\'' ∷ []) ++ tail) ≡ ok (val, tail)
unfolding double
string_body-double [] tail h = string_body-close tail h
string_body-double (c ∷ val) tail h = elim (Bool-cases (c == b'\'')) [
  | inl here ↦
      let e : b'\'' ≡ c = ground (arith, here) in
      rw here (
        string_body-pair ((double b'\'' val ++ b'\'' ∷ []) ++ tail)
        ∙ ap (push b'\'') (string_body-double val tail h)
        ∙ ap (λ (d : ℕ). ok (d ∷ val, tail)) e)
  | inr there ↦ rw there (
      string_body-plain c ((double b'\'' val ++ b'\'' ∷ []) ++ tail) there
      ∙ ap (push c) (string_body-double val tail h))
]

quoted_body-pair : (s : Bytes) → quoted_body (b'"' ∷ b'"' ∷ s) ≡ push b'"' (quoted_body s)
unfolding quoted_body
quoted_body-pair s = refl

quoted_body-double :
    (val tail : Bytes)
    → next_is is_double_quote tail ≡ false
    → quoted_body ((double b'"' val ++ b'"' ∷ []) ++ tail) ≡ ok (val, tail)
unfolding double
quoted_body-double [] tail h = quoted_body-close tail h
quoted_body-double (c ∷ val) tail h = elim (Bool-cases (c == b'"')) [
  | inl here ↦
      let e : b'"' ≡ c = ground (arith, here) in
      rw here (
        quoted_body-pair ((double b'"' val ++ b'"' ∷ []) ++ tail)
        ∙ ap (push b'"') (quoted_body-double val tail h)
        ∙ ap (λ (d : ℕ). ok (d ∷ val, tail)) e)
  | inr there ↦ rw there (
      quoted_body-plain c ((double b'"' val ++ b'"' ∷ []) ++ tail) there
      ∙ ap (push c) (quoted_body-double val tail h))
]

-- Nothing is skipped before a quote.
scan_at :
    (to_lower : Bytes → Bytes) (s : Scanner) (c : ℕ) (rest : Bytes)
    → (c ≡ b'\'') ⊎ (c ≡ b'"')
    → scan to_lower (record s { rest = c ∷ rest })
      ≡ scan_byte to_lower (record s { rest = c ∷ rest }) c
unfolding scan skip_space_and_comments skip_rounds scan_token
scan_at to_lower s c rest (inl e) = rw e refl
scan_at to_lower s c rest (inr e) = rw e refl

-- A string literal printed with its quotes doubled is scanned, where no quote follows it, as one
-- String token with the value that was printed, and what follows it is left.
pub scan-quote_literal :
    (to_lower : Bytes → Bytes) (s : Scanner) (val tail : Bytes)
    → next_is is_quote tail ≡ false
    → scan to_lower (record s { rest = quote_literal val ++ tail })
      ≡ emit (record s { rest = quote_literal val ++ tail }) string val 0 tail
unfolding quote_literal
scan-quote_literal to_lower s val tail h =
    let body = (double b'\'' val ++ b'\'' ∷ []) ++ tail in
    scan_at to_lower s b'\'' body (inl refl)
    ∙ unfold scan_byte scan_string peek in
      ap (λ r. r >>= λ (v, rest). emit (record s { rest = b'\'' ∷ body }) string v 0 rest)
        (string_body-double val tail h)

-- A delimited identifier that is not empty, written with its quotes doubled, is scanned, where no
-- quote follows it, as one QuotedIdent token with the name in its case, and what follows it is left.
pub scan-quote_ident :
    (to_lower : Bytes → Bytes) (s : Scanner) (c : ℕ) (name tail : Bytes)
    → next_is is_double_quote tail ≡ false
    → scan to_lower (record s { rest = quote_ident (c ∷ name) ++ tail })
      ≡ emit (record s { rest = quote_ident (c ∷ name) ++ tail }) quoted_ident (c ∷ name) 0 tail
unfolding quote_ident
scan-quote_ident to_lower s c name tail h =
    let body = (double b'"' (c ∷ name) ++ b'"' ∷ []) ++ tail in
    scan_at to_lower s b'"' body (inr refl)
    ∙ unfold scan_byte scan_quoted_ident peek in
      ap
        (λ r. r >>= λ (v, rest). elim v [
          | [] ↦ err syntax_error
          | d ∷ ds ↦ emit (record s { rest = b'"' ∷ body }) quoted_ident (d ∷ ds) 0 rest
        ])
        (quoted_body-double (c ∷ name) tail h)
