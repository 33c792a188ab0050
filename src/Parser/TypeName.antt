-- ===== src/Parser/TypeName.antt =====
-- internal/parser/expr.go: the type names.
use lightsql.Common.{
  ℕ, zero, suc, ◌||◌, List, [], ◌∷◌, ◌++◌, Option, none, some, if◌then◌else◌, Bytes, bytes,
  bytes_eq, syntax_error,
}
use lightsql.Token.{Kind, ident, quoted_ident, number, lparen, rparen, comma}
use lightsql.Scanner.Lexeme.{atoi}
use lightsql.Ast.{TypeName}
use lightsql.Parser.{
  Parsed, Parser, parsed, failed, starved, ◌>>=◌, cur_kind, cur_val, next, at, accept, unexpected,
  expect, at_word, expect_word,
}

-- A modifier that was read, and what follows it.
unfoldable pub add_mod : Parser (List ℕ) → Option ℕ → Parser (List ℕ)
unfolding accept
add_mod rest none ts = failed syntax_error
add_mod rest (some n) ts = accept comma ts >>= λ more ts1.
    let others = rest ts1 >>= λ ns ts2. parsed (n ∷ ns) ts2 in
    if more then others else parsed (n ∷ []) ts1

-- The modifiers of a type.
unfoldable pub parse_mods : ℕ → Parser (List ℕ)
unfolding at add_mod
parse_mods zero ts = starved
parse_mods (suc f) ts =
    if at number ts then add_mod (parse_mods f) (atoi (cur_val ts)) (next ts) else unexpected

-- The second word of a type name.
unfoldable pub type_words : Bytes → Parser Bytes
unfolding at_word
type_words first ts =
    let long = λ (word : Bytes) (otherwise : Bytes).
      if at_word word ts
      then parsed (first ++ bytes " " ++ word) (next ts)
      else parsed otherwise ts in
    if bytes_eq first (bytes "double")
    then long (bytes "precision") first
    else if bytes_eq first (bytes "character")
    then long (bytes "varying") (bytes "char")
    else if bytes_eq first (bytes "bit")
    then long (bytes "varying") first
    else parsed first ts

-- WITH or WITHOUT TIME ZONE.
unfoldable pub zone_words : Bytes → List ℕ → Parser TypeName
unfolding at_word expect_word
zone_words word mods ts =
    let zone = λ (whole : Bytes).
      let typ : TypeName = record { name = whole; mods = mods } in
      expect_word (bytes "time") (next ts) >>= λ _ ts1.
      expect_word (bytes "zone") ts1 >>= λ _ ts2. parsed typ ts2 in
    let plain : Parsed TypeName = parsed (record { name = word; mods = mods }) ts in
    if bytes_eq word (bytes "timestamp") || bytes_eq word (bytes "time")
    then (if at_word (bytes "with") ts
        then zone (word ++ bytes "tz")
        else if at_word (bytes "without") ts
        then zone word
        else plain)
    else plain

-- The rest of a type name, behind its words.
unfoldable pub type_rest : ℕ → Bytes → Parser TypeName
unfolding accept parse_mods expect zone_words
type_rest f word ts = accept lparen ts >>= λ open_mods ts1.
    let modified : Parsed TypeName =
      parse_mods f ts1 >>= λ mods ts2. expect rparen ts2 >>= λ _ ts3. zone_words word mods ts3 in
    if open_mods then modified else zone_words word [] ts1

unfoldable pub type_form : Kind → ℕ → Parser TypeName
unfolding type_words type_rest
type_form ident f ts = type_words (cur_val ts) (next ts) >>= λ word ts1. type_rest f word ts1
type_form quoted_ident f ts = type_words (cur_val ts) (next ts) >>= λ word ts1. type_rest f word ts1
type_form _ f ts = unexpected

-- `parseTypeName`
unfoldable pub parse_type_name : ℕ → Parser TypeName
unfolding type_form
parse_type_name f ts = type_form (cur_kind ts) f ts
