-- ===== src/Scanner/Tests.antt =====
-- Runs of the scanner, and the theorems about it at concrete texts.
use lightsql.Common.{
  All, ℕ, ◌≡◌, ◌⊎◌, refl, true, List, [], ◌∷◌, ◌++◌, Option, none, some, Bytes, bytes, Result, ok,
  err, map, length,
}
use lightsql.Token.{
  Kind, Token, ident, minus, number, string, not_eq, long_arrow, param, eof, comma, kw_select,
  lookup,
}
use lightsql.Scanner.{Scanner, scan, tokens, new, emit}
use lightsql.Scanner.Lexeme.{fold_ascii, has_prefix}
use lightsql.Scanner.Ends.{EndsWell, tokens_end}
use lightsql.Scanner.Placeholders.{ordinals, count_up, param_bytes, tokens_placeholders}
use lightsql.Scanner.Quote.{quote_literal, scan-quote_literal}

same : Bytes → Bytes
same s = s

abbrev summary : Token → Kind × ℕ × Bytes × ℕ
summary t = (t.kind, t.pos, t.val, t.ord)

abbrev kinds : Option (Result (List Token × Scanner)) → List (Kind × ℕ × Bytes × ℕ)
kinds (some (ok (toks, s))) = map summary toks
kinds (some (err e)) = []
kinds none = []

operators_run :
    kinds (tokens same (bytes "a-1 /* x /* y */ */ <>b ->>?"))
    ≡ (ident, 0, bytes "a", 0)
      ∷ (minus, 1, [], 0)
      ∷ (number, 2, bytes "1", 0)
      ∷ (not_eq, 20, [], 0)
      ∷ (ident, 22, bytes "b", 0)
      ∷ (long_arrow, 24, [], 0)
      ∷ (param, 27, [], 1)
      ∷ (eof, 28, [], 0)
      ∷ []
unfolding tokens fold_ascii lookup
operators_run = refl

literals_run :
    kinds (tokens same (bytes "SELECT 1.5e3,'it''s' $q$ a $$ $q$ E'\\n\\\\'"))
    ≡ (kw_select, 0, bytes "select", 0)
      ∷ (number, 7, bytes "1.5e3", 0)
      ∷ (comma, 12, [], 0)
      ∷ (string, 13, bytes "it's", 0)
      ∷ (string, 21, bytes " a $$ ", 0)
      ∷ (string, 35, 10 ∷ 92 ∷ [], 0)
      ∷ (eof, 41, [], 0)
      ∷ []
unfolding tokens fold_ascii lookup
literals_run = refl

abbrev text : Bytes
text = bytes "a = ?"

tokens_end_example :
    (r : Result (List Token × Scanner)) × (tokens same text ≡ some r) × EndsWell 5 0 r
tokens_end_example = tokens_end same text

abbrev read : Option (Result (List Token × Scanner)) → List Token × Scanner
read (some (ok p)) = p
read _ = ([], new [])

abbrev scanned : List Token × Scanner
scanned = read (tokens same text)

scanned_ok : tokens same text ≡ some (ok (scanned.0, scanned.1))
unfolding tokens
scanned_ok = refl

tokens_placeholders_example :
    let signs = param_bytes same 6 (new text) in
    (length signs ≡ length (ordinals scanned.0))
    × (All (λ c. c ≡ b'$') signs
        ⊎ (All (λ c. c ≡ b'?') signs
            × (ordinals scanned.0 ≡ count_up 1 (length (ordinals scanned.0)))))
tokens_placeholders_example = tokens_placeholders same text scanned.0 scanned.1 scanned_ok

marked : param_bytes same 6 (new text) ≡ b'?' ∷ []
unfolding param_bytes
marked = refl

scan-quote_literal_example :
    scan same (record (new []) { rest = quote_literal (bytes "it's") ++ bytes ", 1" })
    ≡ emit
        (record (new []) { rest = quote_literal (bytes "it's") ++ bytes ", 1" })
        string
        (bytes "it's")
        0
        (bytes ", 1")
scan-quote_literal_example = scan-quote_literal same (new []) (bytes "it's") (bytes ", 1") refl

minus_here : has_prefix (bytes "->>'a'") (bytes "-") ≡ true
unfolding has_prefix
minus_here = refl
