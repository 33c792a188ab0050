-- ===== src/Builtin/Keys/Laws.antt =====
-- KeySet is a set, and KeyCounts a multiset, up to the equality of keys (internal/builtin/aggregate.go).
use lightsql.Common.{
  ℕ, ◌+◌, ◌-◌, ◌≡◌, refl, sym, ap, ◌∙◌, Bool, true, false, ◌&&◌, ◌||◌, not, List, [], ◌∷◌, ◌++◌,
  ltb, ◌==◌, if◌then◌else◌, arith, Bool-cases, inl, inr,
}
use lightsql.Builtin.Keys.{
  Keys, KeySet, find_key, add_key, KeyCounts, bump, add_count, take_from, take_count, known_in,
  has_key,
}

-- What a hashed set asks of its keys: an equivalence, and equal hashes for equal keys.
pub record IsKeys {K : Type 0} (ops : Keys K) : Type 0 where
  pub same_refl : (a : K) → ops.same_key a a ≡ true
  pub same_symm : (a b : K) → ops.same_key a b ≡ ops.same_key b a
  pub same_trans :
      (a b c : K) → ops.same_key a b ≡ true → ops.same_key b c ≡ true → ops.same_key a c ≡ true
  pub hash-same : (a b : K) → ops.same_key a b ≡ true → ops.hash a ≡ ops.hash b

abbrev pub one_if : Bool → ℕ
one_if true = 1
one_if false = 0

module _ {K : Type 0} (ops : Keys K) (law : IsKeys ops) where
  -- How often a key is in a list.
  unfoldable pub count : K → List K → ℕ
  count k [] = 0
  count k (x ∷ xs) = one_if (ops.same_key x k) + count k xs

  pub same_congr : (a b c : K) → ops.same_key a b ≡ true → ops.same_key a c ≡ ops.same_key b c
  same_congr a b c e = ground (arith, law.same_symm a b, law.same_trans a b c, law.same_trans b a c)

  pub same_congr_right : (a b c : K) → ops.same_key b c ≡ true → ops.same_key a b ≡ ops.same_key a c
  same_congr_right a b c e = law.same_symm a b ∙ same_congr b c a e ∙ law.same_symm c a

  find_key_congr :
      (bucket : List K) (x k : K)
      → ops.same_key x k ≡ true
      → find_key ops bucket x ≡ find_key ops bucket k
  unfolding find_key
  find_key_congr [] x k e = refl
  find_key_congr (g ∷ bucket) x k e =
      rw (same_congr_right g x k e, find_key_congr bucket x k e) refl

  find_key-append :
      (bucket : List K) (x k : K)
      → find_key ops (bucket ++ x ∷ []) k ≡ find_key ops bucket k || ops.same_key x k
  unfolding find_key
  find_key-append [] x k = ground arith
  find_key-append (g ∷ bucket) x k = ground (arith, find_key-append bucket x k)

  other_hash : (x k : K) → ops.hash k == ops.hash x ≡ false → ops.same_key x k ≡ false
  other_hash x k e = ground (arith, law.hash-same x k)

  -- Whether a key is in the set.
  abbrev pub in_set : KeySet ops → K → Bool
  in_set s k = find_key ops (s (ops.hash k)) k

  pub in_set_congr : (s : KeySet ops) (x k : K) → ops.same_key x k ≡ true → in_set s x ≡ in_set s k
  in_set_congr s x k e =
      find_key_congr (s (ops.hash x)) x k e
      ∙ ap (λ (h : ℕ). find_key ops (s h) k) (law.hash-same x k e)

  or_false : (b : Bool) → b ≡ b || false
  or_false b = ground arith

  pub in_set-add_key :
      (s : KeySet ops) (x k : K)
      → (in_set (add_key ops s x).0 k ≡ in_set s k || ops.same_key x k)
        × ((add_key ops s x).1 ≡ not (in_set s x))
  unfolding add_key
  in_set-add_key s x k = elim (Bool-cases (find_key ops (s (ops.hash x)) x)) [
    | inl found ↦ rw found (ground (arith, found, in_set_congr s x k), refl)
    | inr new ↦ elim (Bool-cases (ops.hash k == ops.hash x)) [
      | inl here ↦ rw new (rw here (find_key-append (s (ops.hash k)) x k), refl)
      | inr there ↦
          rw new
            (rw (there, other_hash x k there) (or_false (find_key ops (s (ops.hash k)) k)), refl)
    ]
  ]

  -- How often a key is left in the multiset.
  unfoldable pub total : List (K × ℕ) → K → ℕ
  total [] k = 0
  total ((g, n) ∷ bucket) k =
      let rest = total bucket k in if ops.same_key g k then n + rest else rest

  total_congr :
      (bucket : List (K × ℕ)) (x k : K) → ops.same_key x k ≡ true → total bucket x ≡ total bucket k
  unfolding total
  total_congr [] x k e = refl
  total_congr ((g, n) ∷ bucket) x k e = rw (same_congr_right g x k e, total_congr bucket x k e) refl

  total-bump :
      (bucket : List (K × ℕ)) (x k : K)
      → total (bump ops bucket x) k ≡ total bucket k + one_if (ops.same_key x k)
  unfolding total bump
  total-bump [] x k = ground arith
  total-bump ((g, n) ∷ bucket) x k = ground (arith, total-bump bucket x k, same_congr g x k)

  -- How often a key is left in the multiset.
  abbrev pub left : KeyCounts ops → K → ℕ
  left c k = total (c (ops.hash k)) k

  pub left_congr : (c : KeyCounts ops) (x k : K) → ops.same_key x k ≡ true → left c x ≡ left c k
  left_congr c x k e =
      total_congr (c (ops.hash x)) x k e ∙ ap (λ (h : ℕ). total (c h) k) (law.hash-same x k e)

  pub left-add_count :
      (c : KeyCounts ops) (x k : K)
      → left (add_count ops c x) k ≡ left c k + one_if (ops.same_key x k)
  unfolding add_count
  left-add_count c x k = elim (Bool-cases (ops.hash k == ops.hash x)) [
    | inl here ↦ rw here (total-bump (c (ops.hash k)) x k)
    | inr there ↦ rw (there, other_hash x k there) (omega arith)
  ]

  take_from-total :
      (bucket : List (K × ℕ)) (x k : K)
      → ((take_from ops bucket x).1 ≡ ltb 0 (total bucket x))
        × (total (take_from ops bucket x).0 k
            ≡ total bucket k - one_if (ltb 0 (total bucket x) && ops.same_key x k))
  unfolding total take_from
  take_from-total [] x k = ground arith
  take_from-total ((g, n) ∷ bucket) x k = ground (
    arith,
    take_from-total bucket x k,
    same_congr g x k,
    same_congr_right g x k,
    total_congr bucket x k,
  )

  pub left-take_count :
      (c : KeyCounts ops) (x k : K)
      → ((take_count ops c x).1 ≡ ltb 0 (left c x))
        × (left (take_count ops c x).0 k ≡ left c k - one_if (ltb 0 (left c x) && ops.same_key x k))
  unfolding take_count
  left-take_count c x k =
      let (found, less) = take_from-total (c (ops.hash x)) x k in
      elim (Bool-cases (ops.hash k == ops.hash x)) [
        | inl here ↦
            let e : ops.hash k ≡ ops.hash x = ground (arith, here) in
            (
              found,
              rw here (
                  less
                  ∙ ap (λ (h : ℕ). total (c h) k - one_if (ltb 0 (left c x) && ops.same_key x k))
                      (sym e)),
            )
        | inr there ↦
            (found, rw (there, other_hash x k there) (no_change (ltb 0 (left c x)) (left c k)))
      ]
    where
      no_change : (b : Bool) (n : ℕ) → n ≡ n - one_if (b && false)
      no_change b n = ground arith

  known_in-bump :
      (bucket : List (K × ℕ)) (x k : K)
      → known_in ops (bump ops bucket x) k ≡ known_in ops bucket k || ops.same_key x k
  unfolding known_in bump
  known_in-bump [] x k = ground arith
  known_in-bump ((g, n) ∷ bucket) x k = ground (arith, known_in-bump bucket x k, same_congr g x k)

  pub has_key-add_count :
      (c : KeyCounts ops) (x k : K)
      → has_key ops (add_count ops c x) k ≡ has_key ops c k || ops.same_key x k
  unfolding add_count has_key
  has_key-add_count c x k = elim (Bool-cases (ops.hash k == ops.hash x)) [
    | inl here ↦ rw here (known_in-bump (c (ops.hash k)) x k)
    | inr there ↦ rw (there, other_hash x k there) (or_false (known_in ops (c (ops.hash k)) k))
  ]

  known_in_congr :
      (bucket : List (K × ℕ)) (x k : K)
      → ops.same_key x k ≡ true
      → known_in ops bucket x ≡ known_in ops bucket k
  unfolding known_in
  known_in_congr [] x k e = refl
  known_in_congr ((g, n) ∷ bucket) x k e =
      rw (same_congr_right g x k e, known_in_congr bucket x k e) refl

  pub has_key_congr :
      (c : KeyCounts ops) (x k : K) → ops.same_key x k ≡ true → has_key ops c x ≡ has_key ops c k
  unfolding has_key
  has_key_congr c x k e =
      known_in_congr (c (ops.hash x)) x k e
      ∙ ap (λ (h : ℕ). known_in ops (c h) k) (law.hash-same x k e)
