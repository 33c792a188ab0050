-- ===== src/Scanner/Lexeme.antt =====
-- internal/scanner/scanner.go: what the scanner does with the bytes that are left, without its state. A
-- function that moves `pos` gives the bytes that are then left.
use lightsql.Common.{
  ℕ, zero, suc, ◌+◌, ◌-◌, ◌^◌, Bool, true, false, ◌&&◌, ◌||◌, not, List, [], ◌∷◌, map, Option, none,
  some, leb, ltb, ◌==◌, if◌then◌else◌, Bytes, bytes, take, drop, length, Result, ok, err, ◌>>=◌,
  syntax_error,
}
use lightsql.Common.Digits.{is_digit, read_ℕ}
use lightsql.Token.{
  Kind, long_arrow, arrow, contains, double_colon, concat, not_eq, less_eq, greater_eq, lparen,
  rparen, comma, semicolon, dot, colon, plus, minus, star, slash, percent, caret, eq, less, greater,
}

-- `peek`
unfoldable pub peek : Bytes → ℕ
peek (c ∷ d ∷ rest) = d
peek _ = 0

-- `isIdentStart`
abbrev pub is_ident_start : ℕ → Bool
is_ident_start c =
    (c == b'_') || (leb b'a' c && leb c b'z') || (leb b'A' c && leb c b'Z') || leb 128 c

-- `isIdentPart`
abbrev pub is_ident_part : ℕ → Bool
is_ident_part c = is_ident_start c || is_digit c

-- Whether the next byte passes a test.
abbrev pub next_is : (ℕ → Bool) → Bytes → Bool
next_is p [] = false
next_is p (c ∷ rest) = p c

-- A loop that moves on while the bytes pass a test.
unfoldable pub skip_while : (ℕ → Bool) → Bytes → Bytes
skip_while p [] = []
skip_while p (c ∷ rest) = let after = skip_while p rest in if p c then after else c ∷ rest

-- `s.src[start:s.pos]`, from what was left at the start and what is left now.
abbrev pub between : Bytes → Bytes → Bytes
between start now = take (length start - length now) start

abbrev pub is_space : ℕ → Bool
is_space c = (c == b' ') || (c == 9) || (c == 10) || (c == 13) || (c == 12) || (c == 11)

abbrev is_newline : ℕ → Bool
is_newline c = c == 10

-- The loop of `skipBlockComment`.
unfoldable pub skip_block : ℕ → Bytes → Result Bytes
skip_block depth (c ∷ d ∷ rest) = elim (c == b'/' && d == b'*') [
  | true ↦ skip_block (depth + 1) rest
  | false ↦ elim (c == b'*' && d == b'/') [
    | true ↦ elim (depth - 1 == 0) [ true ↦ ok rest | false ↦ skip_block (depth - 1) rest ]
    | false ↦ skip_block depth (d ∷ rest)
  ]
]
skip_block depth _ = err syntax_error

-- The loop of `skipSpaceAndComments`, of as many rounds as there are bytes at most.
unfoldable pub skip_rounds : ℕ → Bytes → Result Bytes
unfolding peek skip_while skip_block
skip_rounds zero rest = ok rest
skip_rounds (suc f) [] = ok []
skip_rounds (suc f) (c ∷ rest) = elim (is_space c) [
  | true ↦ skip_rounds f rest
  | false ↦ elim (c == b'-' && peek (c ∷ rest) == b'-') [
    | true ↦ skip_rounds f (skip_while (λ d. not (is_newline d)) (drop 1 rest))
    | false ↦ elim (c == b'/' && peek (c ∷ rest) == b'*') [
      | true ↦ elim (skip_block 0 (c ∷ rest)) [ err e ↦ err e | ok after ↦ skip_rounds f after ]
      | false ↦ ok (c ∷ rest)
    ]
  ]
]

-- `skipSpaceAndComments`
unfoldable pub skip_space_and_comments : Bytes → Result Bytes
unfolding skip_rounds
skip_space_and_comments rest = skip_rounds (length rest) rest

-- The part of `scanNumber` behind the digits: an exponent counts if it has a digit.
unfoldable pub skip_exponent : Bytes → Bytes
unfolding skip_while
skip_exponent [] = []
skip_exponent (c ∷ rest) =
    let digits = if next_is (λ d. (d == b'+') || (d == b'-')) rest then drop 1 rest else rest in
    if (c == b'e') || (c == b'E')
    then (if next_is is_digit digits then skip_while is_digit digits else c ∷ rest)
    else c ∷ rest

-- What `scanNumber` leaves.
unfoldable pub skip_number : Bytes → Bytes
unfolding skip_while skip_exponent
skip_number rest =
    let whole = skip_while is_digit rest in
    skip_exponent
      (if next_is (λ c. c == b'.') whole then skip_while is_digit (drop 1 whole) else whole)

-- `unescape`
unfoldable pub unescape : ℕ → ℕ
unescape c =
    if c == b'n'
    then 10
    else if c == b't'
    then 9
    else if c == b'r'
    then 13
    else if c == b'b'
    then 8
    else if c == b'f'
    then 12
    else c

abbrev pub push : ℕ → Result (Bytes × Bytes) → Result (Bytes × Bytes)
push c (ok (val, rest)) = ok (c ∷ val, rest)
push c (err e) = err e

-- The loop of `scanString`, behind the opening quote: the value, and what is left.
unfoldable pub string_body : Bool → Bytes → Result (Bytes × Bytes)
unfolding unescape
string_body escapes [] = err syntax_error
string_body escapes (c ∷ []) = if c == b'\'' then ok ([], []) else err syntax_error
string_body escapes (c ∷ d ∷ rest) = elim (c == b'\'') [
  | true ↦ elim (d == b'\'') [
    | true ↦ push b'\'' (string_body escapes rest)
    | false ↦ ok ([], d ∷ rest)
  ]
  | false ↦ elim (escapes && c == b'\\') [
    | true ↦ push (unescape d) (string_body escapes rest)
    | false ↦ push c (string_body escapes (d ∷ rest))
  ]
]

-- The loop of `scanQuotedIdent`, behind the opening quote.
unfoldable pub quoted_body : Bytes → Result (Bytes × Bytes)
quoted_body [] = err syntax_error
quoted_body (c ∷ []) = if c == b'"' then ok ([], []) else err syntax_error
quoted_body (c ∷ d ∷ rest) = elim (c == b'"') [
  | true ↦ elim (d == b'"') [ true ↦ push b'"' (quoted_body rest) | false ↦ ok ([], d ∷ rest) ]
  | false ↦ push c (quoted_body (d ∷ rest))
]

-- The loop over the tag in `scanDollarQuoted`: what is left behind the second `$`.
unfoldable pub skip_tag : Bytes → Result Bytes
skip_tag [] = err syntax_error
skip_tag (c ∷ rest) =
    let after = skip_tag rest in
    if c == b'$' then ok rest else if is_ident_part c then after else err syntax_error

-- `strings.HasPrefix`
unfoldable pub has_prefix : Bytes → Bytes → Bool
has_prefix s [] = true
has_prefix [] (p ∷ ps) = false
has_prefix (c ∷ s) (p ∷ ps) = (c == p) && has_prefix s ps

-- `strings.Index`
unfoldable pub index : Bytes → Bytes → Option ℕ
unfolding has_prefix
index [] sub = if has_prefix [] sub then some 0 else none
index (c ∷ s) sub =
    let later = index s sub in
    if has_prefix (c ∷ s) sub then some 0 else elim later [ none ↦ none | some i ↦ some (suc i) ]

-- `scanDollarQuoted`: the value, and what is left.
unfoldable pub dollar_quoted : Bytes → Result (Bytes × Bytes)
unfolding skip_tag index
dollar_quoted rest = skip_tag (drop 1 rest) >>= λ body.
    let delim = between rest body in
    elim (index body delim) [
      | none ↦ err syntax_error
      | some end ↦ ok (take end body, drop (end + length delim) body)
    ]

-- `strconv.Atoi` of digits: `none` where the number is no int.
unfoldable pub atoi : Bytes → Option ℕ
unfolding read_ℕ
atoi s = elim (read_ℕ s) [ none ↦ none | some n ↦ if ltb n (2 ^ 63) then some n else none ]

-- The loop of `foldASCII` over the bytes: `none` where there is one above ASCII.
unfoldable pub needs_fold : Bool → Bytes → Option Bool
needs_fold needs [] = some needs
needs_fold needs (c ∷ s) =
    let upper = needs_fold true s in
    let same = needs_fold needs s in
    if leb b'A' c && leb c b'Z' then upper else if leb 128 c then none else same

abbrev pub lower : ℕ → ℕ
lower c = if leb b'A' c && leb c b'Z' then c + (b'a' - b'A') else c

-- `foldASCII`, where `to_lower` is `strings.ToLower`.
unfoldable pub fold_ascii : (Bytes → Bytes) → Bytes → Bytes
unfolding needs_fold
fold_ascii to_lower s = elim (needs_fold false s) [
  | none ↦ to_lower s
  | some needs ↦ if needs then map lower s else s
]

abbrev pub operators : List (Bytes × Kind)
operators =
    (bytes "->>", long_arrow)
    ∷ (bytes "->", arrow)
    ∷ (bytes "@>", contains)
    ∷ (bytes "::", double_colon)
    ∷ (bytes "||", concat)
    ∷ (bytes "<>", not_eq)
    ∷ (bytes "!=", not_eq)
    ∷ (bytes "<=", less_eq)
    ∷ (bytes ">=", greater_eq)
    ∷ (bytes "(", lparen)
    ∷ (bytes ")", rparen)
    ∷ (bytes ",", comma)
    ∷ (bytes ";", semicolon)
    ∷ (bytes ".", dot)
    ∷ (bytes ":", colon)
    ∷ (bytes "+", plus)
    ∷ (bytes "-", minus)
    ∷ (bytes "*", star)
    ∷ (bytes "/", slash)
    ∷ (bytes "%", percent)
    ∷ (bytes "^", caret)
    ∷ (bytes "=", eq)
    ∷ (bytes "<", less)
    ∷ (bytes ">", greater)
    ∷ []

-- The loop of `scanOperator`: the kind, and how many bytes it takes.
unfoldable pub match_operator : List (Bytes × Kind) → Bytes → Option (Kind × ℕ)
unfolding has_prefix
match_operator [] rest = none
match_operator ((text, kind) ∷ ops) rest =
    let later = match_operator ops rest in
    if has_prefix rest text then some (kind, length text) else later
