-- ===== src/Scanner/Munch.antt =====
-- internal/scanner/scanner.go: the operator that scanOperator takes is the longest that is there.
use lightsql.Common.{
  ℕ, zero, suc, ◌≤◌, ◌<◌, ◌≡◌, refl, sym, ap, ◌∙◌, Bool, true, ◌&&◌, not, List, [], ◌∷◌, some, ltb,
  Bytes, length, get_elem?, arith, Bool-cases, inl, inr,
}
use lightsql.Token.{Kind}
use lightsql.Scanner.Lexeme.{has_prefix, operators, match_operator}

has_prefix_le : (s p : Bytes) → has_prefix s p ≡ true → length p ≤ length s
unfolding has_prefix
has_prefix_le s [] h = omega arith
has_prefix_le [] (p ∷ ps) h = ground arith
has_prefix_le (c ∷ s) (p ∷ ps) h = ground (arith, has_prefix_le s ps)

-- Of two prefixes of a text the shorter is a prefix of the longer.
prefix_of_prefix :
    (s p q : Bytes)
    → has_prefix s p ≡ true
    → has_prefix s q ≡ true
    → length p ≤ length q
    → has_prefix q p ≡ true
unfolding has_prefix
prefix_of_prefix s [] q hp hq le = refl
prefix_of_prefix s (p ∷ ps) [] hp hq le = ground arith
prefix_of_prefix [] (p ∷ ps) (q ∷ qs) hp hq le = ground arith
prefix_of_prefix (c ∷ s) (p ∷ ps) (q ∷ qs) hp hq le = ground (arith, prefix_of_prefix s ps qs)

-- No text of the table is longer than `text` and begins with it.
no_longer : Bytes → List (Bytes × Kind) → Bool
no_longer text [] = true
no_longer text ((other, kind) ∷ ops) =
    not (has_prefix other text && ltb (length text) (length other)) && no_longer text ops

longest_first : List (Bytes × Kind) → Bool
unfolding no_longer
longest_first [] = true
longest_first ((text, kind) ∷ ops) =
    ltb 0 (length text) && (no_longer text ops && longest_first ops)

no_longer_lem :
    (s text other : Bytes) (kind : Kind) (ops : List (Bytes × Kind)) (i : ℕ)
    → no_longer text ops ≡ true
    → get_elem? ops i ≡ some (other, kind)
    → has_prefix s text ≡ true
    → has_prefix s other ≡ true
    → length other ≤ length text
unfolding no_longer
no_longer_lem s text other kind [] i n e ht ho = ground arith
no_longer_lem s text other kind ((o, k) ∷ ops) zero n e ht ho =
    ground (arith, prefix_of_prefix s text o)
no_longer_lem s text other kind ((o, k) ∷ ops) (suc i) n e ht ho =
    ground (arith, no_longer_lem s text other kind ops i)

-- What the loop finds takes a byte at least, and no more than there are.
match_operator_le :
    (ops : List (Bytes × Kind)) (s : Bytes) (kind : Kind) (size : ℕ)
    → longest_first ops ≡ true
    → match_operator ops s ≡ some (kind, size)
    → (0 < size) × (size ≤ length s)
unfolding match_operator longest_first
match_operator_le [] s kind size ok_table h = ground arith
match_operator_le ((text, k) ∷ ops) s kind size ok_table h =
    ground (arith, has_prefix_le s text, match_operator_le ops s kind size)

match_operator_longest :
    (ops : List (Bytes × Kind)) (s : Bytes) (i : ℕ) (text : Bytes) (kind : Kind)
    → longest_first ops ≡ true
    → get_elem? ops i ≡ some (text, kind)
    → has_prefix s text ≡ true
    → (taken : Kind) × (size : ℕ) × (match_operator ops s ≡ some (taken, size))
      × (length text ≤ size)
unfolding match_operator longest_first
match_operator_longest [] s i text kind t e h = ground arith
match_operator_longest ((o, k) ∷ ops) s zero text kind t e h =
    (k, length o, ground arith, ground arith)
match_operator_longest ((o, k) ∷ ops) s (suc i) text kind t e h =
    elim (Bool-cases (has_prefix s o)) [
      | inl here ↦
          (k, length o, rw here refl, ground (arith, here, no_longer_lem s o text kind ops i))
      | inr there ↦
          let (taken, size, found, le) =
            match_operator_longest ops s i text kind (ground arith) e h in
          (taken, size, rw there found, le)
    ]

operators-longest_first : longest_first operators ≡ true
unfolding longest_first no_longer has_prefix
operators-longest_first = refl

pub operator_le :
    (s : Bytes) (kind : Kind) (size : ℕ)
    → match_operator operators s ≡ some (kind, size)
    → (0 < size) × (size ≤ length s)
operator_le s kind size h = match_operator_le operators s kind size operators-longest_first h

match_operator_here :
    (ops : List (Bytes × Kind)) (s : Bytes) (kind : Kind) (size : ℕ)
    → match_operator ops s ≡ some (kind, size)
    → (i : ℕ) × (text : Bytes) × (get_elem? ops i ≡ some (text, kind))
      × (has_prefix s text ≡ true)
      × (length text ≡ size)
unfolding match_operator
match_operator_here [] s kind size h = ground arith
match_operator_here ((o, k) ∷ ops) s kind size h = elim (Bool-cases (has_prefix s o)) [
  | inl here ↦ (0, o, ground (arith, here), here, ground (arith, here))
  | inr there ↦
      let (i, text, e, p, n) = match_operator_here ops s kind size (ground (arith, there)) in
      (suc i, text, e, p, n)
]

-- scanOperator takes an operator of the table that stands next in the text, and finds one where one
-- stands there; none of those that stand there is longer than the one that it takes.
pub operator_longest :
    (s : Bytes) (i : ℕ) (text : Bytes) (kind : Kind)
    → get_elem? operators i ≡ some (text, kind)
    → has_prefix s text ≡ true
    → (j : ℕ) × (taken : Bytes) × (kind_taken : Kind) × (get_elem? operators j
        ≡ some (taken, kind_taken))
      × (has_prefix s taken ≡ true)
      × (match_operator operators s ≡ some (kind_taken, length taken))
      × (length text ≤ length taken)
operator_longest s i text kind e h =
    let (k, size, found, le) =
      match_operator_longest operators s i text kind operators-longest_first e h in
    let (j, taken, e', p, n) = match_operator_here operators s k size found in
    (j, taken, k, e', p, found ∙ ap (λ (m : ℕ). some (k, m)) (sym n), omega (arith, le, n))
