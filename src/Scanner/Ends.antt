-- ===== src/Scanner/Ends.antt =====
-- internal/scanner/scanner.go: Tokens comes to an end, and its tokens stand in the order of the text.
use lightsql.Common.{
  ℕ, zero, suc, ◌-◌, ◌≤◌, ◌<◌, ◌≡◌, refl, ap, true, false, List, [], ◌∷◌, Option, none, some, Bytes,
  length, arith, inl, inr, ◌⊎◌, Result, ok, err, ◌>>=◌,
}
use mathlib.Core.Path.{subst}
use lightsql.Token.{Token}
use lightsql.Scanner.Lexeme.{skip_space_and_comments}
use lightsql.Scanner.Consumes.{skip_space_and_comments_le}
use lightsql.Scanner.{
  Scanner, pos_of, new, Scanned, scan_byte, scan_token, scan, is_eof, before, scan_rounds, tokens,
}
use lightsql.Scanner.Progress.{is_param, Advances, further-Advances, scan_byte-Advances}

-- The byte at which a token begins, 0 at the end of the text.
abbrev pub head_of : Result Bytes → ℕ
head_of (ok (c ∷ cs)) = c
head_of _ = 0

abbrev pub next_byte : Scanner → ℕ
next_byte s = head_of (skip_space_and_comments s.rest)

-- A token is the last one, at the end of the text, or it stands between the position before and the
-- one after it, which is further on.
abbrev MovesAt : ℕ → Scanner → Scanned → Type 0
MovesAt c s (err e) = Unit
MovesAt c s (ok (tok, s')) =
    ((is_eof tok.kind ≡ true)
      × (s'.src ≡ s.src)
      × (s'.rest ≡ [])
      × (tok.pos ≡ length s.src)
      × (is_param tok.kind ≡ false))
    ⊎ Advances c s (ok (tok, s'))

abbrev pub Moves : Scanner → Scanned → Type 0
Moves s r = MovesAt (next_byte s) s r

scan_token-Moves :
    (to_lower : Bytes → Bytes) (s : Scanner) (rest : Bytes)
    → length rest ≤ length s.rest
    → length s.rest ≤ length s.src
    → MovesAt (head_of (ok rest)) s (scan_token to_lower (record s { rest = rest }) rest)
unfolding scan_token
scan_token-Moves to_lower s [] shorter le = inl (refl, refl, refl, omega arith, refl)
scan_token-Moves to_lower s (c ∷ rest) shorter le =
    let s' : Scanner = record s { rest = c ∷ rest } in
    advance (scan_byte to_lower s' c) (
      further-Advances c s (c ∷ rest) (scan_byte to_lower s' c) shorter
        (scan_byte-Advances s' c rest refl (omega (arith, shorter, le)) to_lower))
  where
    advance : (r : Scanned) → Advances c s r → MovesAt c s r
    advance (err e) a = tt
    advance (ok (tok, s')) a = inr a

pub scan-Moves :
    (to_lower : Bytes → Bytes) (s : Scanner)
    → length s.rest ≤ length s.src
    → Moves s (scan to_lower s)
unfolding scan
scan-Moves to_lower s le = go (skip_space_and_comments s.rest) (skip_space_and_comments_le s.rest)
  where
    go :
        (r : Result Bytes)
        → ((rest : Bytes) → r ≡ ok rest → length rest ≤ length s.rest)
        → MovesAt (head_of r) s (r >>= λ rest. scan_token to_lower (record s { rest = rest }) rest)
    go (err e) h = tt
    go (ok rest) h = scan_token-Moves to_lower s rest (h rest refl) le

-- The tokens of a text of `n` bytes from the position `lo` on: each stands before the next, and the
-- last one, which is the only EOF, at the end of the text.
pub data IsStream (n : ℕ) : ℕ → List Token → Type 0 where
  last : {lo : ℕ} {tok : Token} → is_eof tok.kind ≡ true → tok.pos ≡ n → IsStream n lo (tok ∷ [])
  next :
      {lo : ℕ} {tok : Token} {toks : List Token} (hi : ℕ)
      → is_eof tok.kind ≡ false
      → lo ≤ tok.pos
      → tok.pos < hi
      → hi ≤ n
      → IsStream n hi toks
      → IsStream n lo (tok ∷ toks)

-- What Tokens comes to: an error, or such a stream and a state with no byte left.
abbrev pub EndsWell : ℕ → ℕ → Result (List Token × Scanner) → Type 0
EndsWell n lo (err e) = Unit
EndsWell n lo (ok (toks, end)) = IsStream n lo toks × (end.rest ≡ [])

abbrev Ends : ℕ → ℕ → Option (Result (List Token × Scanner)) → Type 0
Ends n lo o = (r : Result (List Token × Scanner)) × (o ≡ some r) × EndsWell n lo r

before-EndsWell :
    (n lo hi : ℕ) (tok : Token) (r : Result (List Token × Scanner))
    → is_eof tok.kind ≡ false
    → lo ≤ tok.pos
    → tok.pos < hi
    → hi ≤ n
    → EndsWell n hi r
    → EndsWell n lo (before tok r)
before-EndsWell n lo hi tok (err e) k from to fits h = tt
before-EndsWell n lo hi tok (ok (toks, end)) k from to fits (h, none_left) =
    (next hi k from to fits h, none_left)

round-Ends :
    (s : Scanner) (r : Scanned) (more : Scanner → Option (Result (List Token × Scanner)))
    → Moves s r
    → ((s' : Scanner)
        → s'.src ≡ s.src
        → length s'.rest < length s.rest
        → Ends (length s.src) (pos_of s') (more s'))
    → Ends (length s.src) (pos_of s) (elim r [
      | err e ↦ some (err e)
      | ok (tok, s') ↦ elim (is_eof tok.kind) [
        | true ↦ some (ok (tok ∷ [], s'))
        | false ↦ elim (more s') [ none ↦ none | some t ↦ some (before tok t) ]
      ]
    ])
round-Ends s (err e) more m h = (err e, refl, tt)
round-Ends s (ok (tok, s')) more (inl (is_last, same, none_left, at_end, placed)) h =
    (ok (tok ∷ [], s'), rw is_last refl, (last is_last at_end, none_left))
round-Ends s (ok (tok, s')) more (inr (not_last, same, lt, from, to, placed)) h =
    let (r, e, well) = h s' same lt in
    (
      before tok r,
      rw (not_last, e) refl,
      before-EndsWell (length s.src) (pos_of s) (pos_of s') tok r not_last from to
          (omega (arith, ap (λ (t : Bytes). length t) same)) well,
    )

scan_rounds-Ends :
    (to_lower : Bytes → Bytes) (f : ℕ) (s : Scanner)
    → length s.rest < f
    → length s.rest ≤ length s.src
    → Ends (length s.src) (pos_of s) (scan_rounds to_lower f s)
unfolding scan_rounds
scan_rounds-Ends to_lower zero s lt le = ground arith
scan_rounds-Ends to_lower (suc f) s lt le =
    round-Ends s (scan to_lower s) (scan_rounds to_lower f) (scan-Moves to_lower s le)
      (λ s' same less.
        let lens = ap (λ (t : Bytes). length t) same in
        ap_src s' same (
          scan_rounds-Ends to_lower f s' (omega (arith, less, lt)) (omega (arith, lens, less, le))))
  where
    ap_src :
        (s' : Scanner)
        → s'.src ≡ s.src
        → Ends (length s'.src) (pos_of s') (scan_rounds to_lower f s')
        → Ends (length s.src) (pos_of s') (scan_rounds to_lower f s')
    ap_src s' same h =
        subst (λ (t : Bytes). Ends (length t) (pos_of s') (scan_rounds to_lower f s')) same h

-- Tokens comes to an end on every text: in an error, or with tokens of which each stands before the
-- next and the last one, which is the only EOF, at the end of the text, when every byte is read.
pub tokens_end :
    (to_lower : Bytes → Bytes) (src : Bytes)
    → (r : Result (List Token × Scanner)) × (tokens to_lower src ≡ some r)
      × EndsWell (length src) 0 r
unfolding tokens
tokens_end to_lower src =
    let (r, e, h) =
      scan_rounds-Ends to_lower (suc (length src)) (new src) (omega arith) (omega arith) in
    (r, e, subst (λ (lo : ℕ). EndsWell (length src) lo r) (n-n (length src)) h)
  where
    n-n : (n : ℕ) → n - n ≡ 0
    n-n n = omega arith
