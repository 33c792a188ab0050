-- ===== src/Exec/Compile/Like.antt =====
-- LIKE patterns (internal/exec/expr.go).
use lightsql.Common.{
  ℕ, ◌≡◌, refl, sym, ap, ◌∙◌, Bool, false, ◌||◌, [], ◌∷◌, ◌++◌, append_assoc, append-nil, ◌==◌,
  if◌then◌else◌, Bytes, arith, Bool-cases, inl, inr,
}
use lightsql.Exec.Eval.{literal}
use lightsql.Exec.Expr.{flush, like_pieces}

abbrev is_special : ℕ → Bool
is_special c = (c == b'%') || ((c == b'_') || (c == b'\\'))

-- A text with a backslash before every byte that a pattern gives a meaning.
unfoldable pub escape : Bytes → Bytes
escape [] = []
escape (c ∷ s) = let rest = escape s in if is_special c then b'\\' ∷ c ∷ rest else c ∷ rest

like_pieces-plain :
    (lit : Bytes) (c : ℕ) (s : Bytes)
    → is_special c ≡ false
    → like_pieces lit (c ∷ s) ≡ like_pieces (lit ++ c ∷ []) s
unfolding like_pieces
like_pieces-plain lit c [] h = ground (arith, h)
like_pieces-plain lit c (d ∷ s) h = ground (arith, h)

like_pieces-escaped :
    (lit : Bytes) (d : ℕ) (s : Bytes)
    → like_pieces lit (b'\\' ∷ d ∷ s) ≡ like_pieces (lit ++ d ∷ []) s
unfolding like_pieces
like_pieces-escaped lit d s = refl

like_pieces-nil : (lit : Bytes) → like_pieces lit [] ≡ flush lit []
unfolding like_pieces
like_pieces-nil lit = refl

like_pieces-escape : (lit s : Bytes) → like_pieces lit (escape s) ≡ flush (lit ++ s) []
unfolding escape
like_pieces-escape lit [] =
    like_pieces-nil lit ∙ ap (λ (t : Bytes). flush t []) (sym (append-nil lit))
like_pieces-escape lit (c ∷ s) =
    let after =
      like_pieces-escape (lit ++ c ∷ []) s
      ∙ ap (λ (t : Bytes). flush t []) (append_assoc lit (c ∷ []) s) in
    elim (Bool-cases (is_special c)) [
      | inl special ↦ rw special (like_pieces-escaped lit c (escape s) ∙ after)
      | inr plain ↦ rw plain (like_pieces-plain lit c (escape s) plain ∙ after)
    ]

-- A LIKE pattern that is a text with a backslash before each %, _ and backslash of it, of one byte at
-- least, stands for that text and nothing else.
pub escaped_pattern : (c : ℕ) (s : Bytes) → like_pieces [] (escape (c ∷ s)) ≡ literal (c ∷ s) ∷ []
escaped_pattern c s = like_pieces-escape [] (c ∷ s)
