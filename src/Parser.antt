-- ===== src/Parser.antt =====
-- internal/parser/parser.go: the token stream and the steps over it. The stream is what is left of the tokens without
-- the EOF that ends them, so that `next` stays at the end. A syntax error is `failed`; `starved` is a
-- parser that ran out of fuel.
pub mod TypeName
pub mod Consumes
pub mod Infix
pub mod Prefix
pub mod Expr
pub mod Tests
use lightsql.Common.{
  ℕ, Bool, true, false, List, [], ◌∷◌, if◌then◌else◌, Bytes, bytes_eq, Code, syntax_error,
}
use lightsql.Token.{Kind, eof, ident, quoted_ident, Token, is_kind}
use lightsql.Ast.{Name}

abbrev pub Stream : Type 0
Stream = List Token

pub data Parsed {ℓ} (A : Type ℓ) : Type ℓ where
  parsed : A → Stream → Parsed A
  failed : Code → Parsed A
  starved : Parsed A

abbrev pub Parser {ℓ} : Type ℓ → Type ℓ
Parser A = Stream → Parsed A

infixl 1 ◌>>=◌
abbrev pub ◌>>=◌ {ℓ κ} : {A : Type ℓ} {B : Type κ} → Parsed A → (A → Parser B) → Parsed B
parsed a ts >>= f = f a ts
failed c >>= f = failed c
starved >>= f = starved

-- `cur`: its kind, value and ordinal
abbrev pub cur_kind : Stream → Kind
cur_kind [] = eof
cur_kind (t ∷ ts) = t.kind

abbrev pub cur_val : Stream → Bytes
cur_val [] = []
cur_val (t ∷ ts) = t.val

abbrev pub cur_ord : Stream → ℕ
cur_ord [] = 0
cur_ord (t ∷ ts) = t.ord

abbrev pub next : Stream → Stream
next [] = []
next (t ∷ ts) = ts

-- `peek(1)`
abbrev pub peek_kind : Stream → Kind
peek_kind ts = cur_kind (next ts)

unfoldable pub at : Kind → Stream → Bool
unfolding is_kind
at k ts = is_kind (cur_kind ts) k

unfoldable pub accept : Kind → Parser Bool
unfolding at
accept k ts = if at k ts then parsed true (next ts) else parsed false ts

-- `unexpected`
abbrev pub unexpected {ℓ} : {A : Type ℓ} → Parsed A
unexpected = failed syntax_error

unfoldable pub expect : Kind → Parser (Unit {0})
unfolding at
expect k ts = if at k ts then parsed tt (next ts) else unexpected

-- `atWord`
unfoldable pub at_word : Bytes → Stream → Bool
unfolding at
at_word word ts = if at ident ts then bytes_eq (cur_val ts) word else false

unfoldable pub expect_word : Bytes → Parser (Unit {0})
unfolding at_word
expect_word word ts = if at_word word ts then parsed tt (next ts) else unexpected

-- `name`, at a name
abbrev pub name : Parser Name
name ts =
    parsed (record { name = cur_val ts; quoted = is_kind (cur_kind ts) quoted_ident }) (next ts)

unfoldable pub name_at : Kind → Parser Name
unfolding is_kind
name_at ident ts = name ts
name_at quoted_ident ts = name ts
name_at _ ts = unexpected

unfoldable pub expect_name : Parser Name
unfolding name_at
expect_name ts = name_at (cur_kind ts) ts
