-- ===== src/Parser/Consumes.antt =====
-- How much of the tokens the steps of a parser leave (internal/parser/parser.go).
use lightsql.Common.{
  ℕ, zero, suc, ◌≤◌, ◌<◌, Bool, true, false, ◌||◌, List, [], ◌∷◌, ◌++◌, Option, none, some,
  if◌then◌else◌, length, arith, Bytes, bytes, bytes_eq,
}
use lightsql.Token.{Kind, ident, quoted_ident, number, comma, lparen, rparen}
use lightsql.Scanner.Lexeme.{atoi}
use lightsql.Ast.{TypeName}
use lightsql.Parser.{
  Stream, Parsed, Parser, parsed, failed, starved, ◌>>=◌, cur_kind, cur_val, at, at_word, accept,
  expect, expect_word, name_at, expect_name, next,
}
use lightsql.Parser.TypeName.{
  add_mod, parse_mods, type_words, zone_words, type_rest, type_form, parse_type_name,
}

-- The parser has come to an end with less than `n` tokens left, or with an error.
abbrev pub Leaves : {A : Type 0} → ℕ → Parsed A → Type 0
Leaves n (parsed a ts) = length ts < n
Leaves n (failed c) = Unit
Leaves n starved = ⊥

pub bind-Leaves :
    {A B : Type 0} (m n : ℕ) (r : Parsed A) (f : A → Parser B)
    → Leaves m r
    → ((a : A) (ts : Stream) → length ts < m → Leaves n (f a ts))
    → Leaves n (r >>= f)
bind-Leaves m n (parsed a ts) f h k = k a ts h
bind-Leaves m n (failed c) f h k = tt
bind-Leaves m n starved f h k = elim h [ ]

pub if-Leaves :
    {A : Type 0} (n : ℕ) (b : Bool) (x y : Parsed A)
    → Leaves n x
    → Leaves n y
    → Leaves n (if b then x else y)
if-Leaves n true x y h k = h
if-Leaves n false x y h k = k

pub weaker : {A : Type 0} (m n : ℕ) (r : Parsed A) → m ≤ n → Leaves m r → Leaves n r
weaker m n (parsed a ts) le h = omega arith
weaker m n (failed c) le h = tt
weaker m n starved le h = elim h [ ]

pub length-next : (ts : Stream) → length (next ts) < suc (length ts)
length-next [] = omega arith
length-next (t ∷ ts) = omega arith

pub accept-Leaves : (k : Kind) (ts : Stream) → Leaves (suc (length ts)) (accept k ts)
unfolding accept
accept-Leaves k ts =
    if-Leaves _ (at k ts) (parsed true (next ts)) (parsed false ts) (length-next ts) (omega arith)

pub expect-Leaves : (k : Kind) (ts : Stream) → Leaves (suc (length ts)) (expect k ts)
unfolding expect
expect-Leaves k ts = if-Leaves _ (at k ts) (parsed tt (next ts)) _ (length-next ts) tt

pub expect_word-Leaves : (w : Bytes) (ts : Stream) → Leaves (suc (length ts)) (expect_word w ts)
unfolding expect_word
expect_word-Leaves w ts = if-Leaves _ (at_word w ts) (parsed tt (next ts)) _ (length-next ts) tt

name_at-Leaves : (k : Kind) (ts : Stream) → Leaves (suc (length ts)) (name_at k ts)
unfolding name_at
name_at-Leaves ident ts = length-next ts
name_at-Leaves quoted_ident ts = length-next ts
name_at-Leaves _ ts = tt

pub expect_name-Leaves : (ts : Stream) → Leaves (suc (length ts)) (expect_name ts)
unfolding expect_name
expect_name-Leaves ts = name_at-Leaves (cur_kind ts) ts

add_mod-Leaves :
    (rest : Parser (List ℕ)) (o : Option ℕ) (ts : Stream)
    → ((ts1 : Stream) → length ts1 < suc (length ts) → Leaves (suc (length ts1)) (rest ts1))
    → Leaves (suc (length ts)) (add_mod rest o ts)
unfolding add_mod
add_mod-Leaves rest none ts h = tt
add_mod-Leaves rest (some n) ts h =
    bind-Leaves _ _ (accept comma ts) _ (accept-Leaves comma ts) λ more ts1 l1.
      if-Leaves _ more _ _ (bind-Leaves _ _ (rest ts1) _ (h ts1 l1) λ ns ts2 l2. omega arith) l1

mods-Leaves : (f : ℕ) (ts : Stream) → length ts < f → Leaves (suc (length ts)) (parse_mods f ts)
unfolding parse_mods
mods-Leaves zero ts h = absurd (omega arith)
mods-Leaves (suc f) [] h = tt
mods-Leaves (suc f) (t ∷ ts) h =
    if-Leaves _ (at number (t ∷ ts)) _ _
      (weaker _ _ (add_mod (parse_mods f) (atoi t.val) ts) (omega arith)
        (add_mod-Leaves (parse_mods f) (atoi t.val) ts λ ts1 l1. mods-Leaves f ts1 (omega arith)))
      tt

words-Leaves : (first : Bytes) (ts : Stream) → Leaves (suc (length ts)) (type_words first ts)
unfolding type_words
words-Leaves first ts =
    if-Leaves _ (bytes_eq first (bytes "double")) _ _ (word (bytes "precision") first) (
      if-Leaves _ (bytes_eq first (bytes "character")) _ _ (word (bytes "varying") (bytes "char")) (
        if-Leaves _ (bytes_eq first (bytes "bit")) _ _ (word (bytes "varying") first)
          (omega arith)))
  where
    word :
        (w o : Bytes)
        → Leaves
            (suc (length ts))
            (if at_word w ts then parsed (first ++ bytes " " ++ w) (next ts) else parsed o ts)
    word w o =
        if-Leaves _ (at_word w ts) (parsed _ (next ts)) (parsed o ts) (length-next ts) (omega arith)

zone-Leaves :
    (w : Bytes) (mods : List ℕ) (ts : Stream) → Leaves (suc (length ts)) (zone_words w mods ts)
unfolding zone_words
zone-Leaves w mods ts =
    if-Leaves _ (bytes_eq w (bytes "timestamp") || bytes_eq w (bytes "time")) _ _
      (if-Leaves _ (at_word (bytes "with") ts) _ _ (zone _)
        (if-Leaves _ (at_word (bytes "without") ts) _ _ (zone _) (omega arith)))
      (omega arith)
  where
    zone :
        (x : TypeName)
        → Leaves (suc (length ts)) (
            expect_word (bytes "time") (next ts) >>= λ _ ts1.
            expect_word (bytes "zone") ts1 >>= λ _ ts2. parsed x ts2)
    zone x =
        bind-Leaves _ _ (expect_word (bytes "time") (next ts)) _ (expect_word-Leaves _ (next ts))
          λ _ ts1 l1.
            bind-Leaves _ _ (expect_word (bytes "zone") ts1) _ (expect_word-Leaves _ ts1)
              λ _ ts2 l2. omega (arith, length-next ts)

type_rest-Leaves :
    (f : ℕ) (w : Bytes) (ts : Stream) → length ts < f → Leaves (suc (length ts)) (type_rest f w ts)
unfolding type_rest
type_rest-Leaves f w ts h =
    bind-Leaves _ _ (accept lparen ts) _ (accept-Leaves lparen ts) λ open_mods ts1 l1.
      if-Leaves _ open_mods _ _
        (bind-Leaves _ _ (parse_mods f ts1) _ (mods-Leaves f ts1 (omega arith)) λ mods ts2 l2.
          bind-Leaves _ _ (expect rparen ts2) _ (expect-Leaves rparen ts2)
            λ _ ts3 l3. weaker _ _ (zone_words w mods ts3) (omega arith) (zone-Leaves w mods ts3))
        (weaker _ _ (zone_words w [] ts1) (omega arith) (zone-Leaves w [] ts1))

type_words_rest :
    (f : ℕ) (w : Bytes) (ts : Stream)
    → length ts < f
    → Leaves (suc (length ts)) (type_words w ts >>= λ word ts1. type_rest f word ts1)
type_words_rest f w ts h = bind-Leaves _ _ (type_words w ts) _ (words-Leaves w ts) λ word ts1 l1.
    weaker _ _ (type_rest f word ts1) (omega arith) (type_rest-Leaves f word ts1 (omega arith))

type_form-Leaves :
    (k : Kind) (f : ℕ) (ts : Stream) → length ts < f → Leaves (suc (length ts)) (type_form k f ts)
unfolding type_form
type_form-Leaves ident f ts h =
    weaker _ _ (type_form ident f ts) (length-next ts)
      (type_words_rest f (cur_val ts) (next ts) (omega (arith, length-next ts)))
type_form-Leaves quoted_ident f ts h =
    weaker _ _ (type_form quoted_ident f ts) (length-next ts)
      (type_words_rest f (cur_val ts) (next ts) (omega (arith, length-next ts)))
type_form-Leaves _ f ts h = tt

pub parse_type_name-Leaves :
    (f : ℕ) (ts : Stream) → length ts < f → Leaves (suc (length ts)) (parse_type_name f ts)
unfolding parse_type_name
parse_type_name-Leaves f ts h = type_form-Leaves (cur_kind ts) f ts h
