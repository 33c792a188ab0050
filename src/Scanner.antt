-- ===== src/Scanner.antt =====
-- internal/scanner/scanner.go: the scanner and its state. The bytes from `pos` on are kept as `rest`, and an
-- error, after which nothing is scanned any more, keeps no state.
pub mod Lexeme
pub mod Quote
pub mod Placeholders
pub mod Ends
pub mod Progress
pub mod Munch
pub mod Consumes
pub mod Tests
use lightsql.Common.{
  ℕ, zero, suc, ◌+◌, ◌-◌, Bool, true, false, ◌&&◌, ◌||◌, List, [], ◌∷◌, Option, none, some, ◌==◌,
  if◌then◌else◌, Bytes, drop, length, Result, ok, err, ◌>>=◌, syntax_error,
}
use lightsql.Common.Digits.{is_digit}
use lightsql.Token.{Kind, eof, number, string, quoted_ident, param, lookup, Token}
use lightsql.Scanner.Lexeme.{
  peek, is_ident_start, is_ident_part, next_is, skip_while, between, skip_space_and_comments,
  skip_number, string_body, quoted_body, dollar_quoted, atoi, fold_ascii, operators, match_operator,
}

-- `Scanner`
pub record Scanner : Type 0 where
  pub src : Bytes
  pub rest : Bytes
  pub next_ord : ℕ
  pub used_dollar : Bool
  pub used_qm : Bool

-- The field `pos`.
abbrev pub pos_of : Scanner → ℕ
pos_of s = length s.src - length s.rest

-- `New`
abbrev pub new : Bytes → Scanner
new src = record { src = src; rest = src; next_ord = 1; used_dollar = false; used_qm = false }

abbrev pub Scanned : Type 0
Scanned = Result (Token × Scanner)

-- A token that begins where the scanner stands, which then moves on to `rest`.
abbrev pub emit : Scanner → Kind → Bytes → ℕ → Bytes → Scanned
emit s kind val ord rest =
    ok (record { kind = kind; pos = pos_of s; val = val; ord = ord }, record s { rest = rest })

-- `scanIdent`
unfoldable pub scan_ident : (Bytes → Bytes) → Scanner → Scanned
unfolding skip_while fold_ascii lookup
scan_ident to_lower s =
    let rest = skip_while is_ident_part s.rest in
    let name = fold_ascii to_lower (between s.rest rest) in emit s (lookup name) name 0 rest

-- `scanNumber`
unfoldable pub scan_number : Scanner → Scanned
unfolding skip_number
scan_number s =
    let rest = skip_number s.rest in
    if next_is is_ident_start rest
    then err syntax_error
    else emit s number (between s.rest rest) 0 rest

-- `scanString`
unfoldable pub scan_string : Bool → Scanner → Scanned
unfolding string_body
scan_string escapes s =
    string_body escapes (drop 1 s.rest) >>= λ (val, rest). emit s string val 0 rest

-- `scanQuotedIdent`
unfoldable pub scan_quoted_ident : Scanner → Scanned
unfolding quoted_body
scan_quoted_ident s = quoted_body (drop 1 s.rest) >>= λ (val, rest). elim val [
  | [] ↦ err syntax_error
  | c ∷ cs ↦ emit s quoted_ident (c ∷ cs) 0 rest
]

-- `scanDollarQuoted`
unfoldable pub scan_dollar_quoted : Scanner → Scanned
unfolding dollar_quoted
scan_dollar_quoted s = dollar_quoted s.rest >>= λ (val, rest). emit s string val 0 rest

-- The first half of `scanDollar`, behind the `$`.
unfoldable pub dollar_param : Scanner → Scanned
unfolding skip_while atoi
dollar_param s =
    let digits = drop 1 s.rest in
    let rest = skip_while is_digit digits in
    elim (atoi (between digits rest)) [
      | none ↦ err syntax_error
      | some ord ↦
          if ord == 0
          then err syntax_error
          else if s.used_qm
          then err syntax_error
          else emit (record s { used_dollar = true }) param [] ord rest
    ]

-- `scanDollar`
unfoldable pub scan_dollar : Scanner → Scanned
unfolding peek dollar_param scan_dollar_quoted
scan_dollar s = if is_digit (peek s.rest) then dollar_param s else scan_dollar_quoted s

-- `questionParam`
unfoldable pub question_param : Scanner → Scanned
question_param s =
    if s.used_dollar
    then err syntax_error
    else emit (record s { used_qm = true; next_ord = s.next_ord + 1 }) param [] s.next_ord
        (drop 1 s.rest)

-- `scanOperator`
unfoldable pub scan_operator : Scanner → Scanned
unfolding match_operator
scan_operator s = elim (match_operator operators s.rest) [
  | none ↦ err syntax_error
  | some (kind, size) ↦ emit s kind [] 0 (drop size s.rest)
]

-- The switch of `Scan`, where `c` is the next byte.
unfoldable pub scan_byte : (Bytes → Bytes) → Scanner → ℕ → Scanned
unfolding peek scan_ident scan_number scan_string scan_quoted_ident scan_dollar question_param
    scan_operator
scan_byte to_lower s c =
    if ((c == b'E') || (c == b'e')) && peek s.rest == b'\''
    then scan_string true (record s { rest = drop 1 s.rest })
    else if is_ident_start c
    then scan_ident to_lower s
    else if is_digit c
    then scan_number s
    else if c == b'.' && is_digit (peek s.rest)
    then scan_number s
    else if c == b'\''
    then scan_string false s
    else if c == b'"'
    then scan_quoted_ident s
    else if c == b'$'
    then scan_dollar s
    else if c == b'?'
    then question_param s
    else scan_operator s

-- `Scan` behind the space.
unfoldable pub scan_token : (Bytes → Bytes) → Scanner → Bytes → Scanned
unfolding scan_byte
scan_token to_lower s [] = emit s eof [] 0 []
scan_token to_lower s (c ∷ rest) = scan_byte to_lower (record s { rest = c ∷ rest }) c

-- `Scan`
unfoldable pub scan : (Bytes → Bytes) → Scanner → Scanned
unfolding skip_space_and_comments scan_token
scan to_lower s =
    skip_space_and_comments s.rest >>= λ rest. scan_token to_lower (record s { rest = rest }) rest

abbrev pub is_eof : Kind → Bool
is_eof eof = true
is_eof _ = false

abbrev pub before : Token → Result (List Token × Scanner) → Result (List Token × Scanner)
before tok (ok (toks, end)) = ok (tok ∷ toks, end)
before tok (err e) = err e

-- The loop of `Tokens`, of `f` rounds at most: `none` where they do not end it.
unfoldable pub scan_rounds : (Bytes → Bytes) → ℕ → Scanner → Option (Result (List Token × Scanner))
unfolding scan
scan_rounds to_lower zero s = none
scan_rounds to_lower (suc f) s = elim (scan to_lower s) [
  | err e ↦ some (err e)
  | ok (tok, s') ↦ elim (is_eof tok.kind) [
    | true ↦ some (ok (tok ∷ [], s'))
    | false ↦ elim (scan_rounds to_lower f s') [ none ↦ none | some r ↦ some (before tok r) ]
  ]
]

-- `Tokens`, with the state that it ends in.
unfoldable pub tokens : (Bytes → Bytes) → Bytes → Option (Result (List Token × Scanner))
unfolding scan_rounds
tokens to_lower src = scan_rounds to_lower (suc (length src)) (new src)
