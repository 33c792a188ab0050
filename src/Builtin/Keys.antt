-- ===== src/Builtin/Keys.antt =====
-- internal/builtin/aggregate.go: KeySet and KeyCounts, over keys of any type that has the two operations
-- that they use. A Go map from a hash to a bucket is a function.
pub mod Laws
use lightsql.Common.{
  ℕ, ◌+◌, ◌-◌, Bool, true, false, ◌&&◌, ◌||◌, List, [], ◌∷◌, ◌++◌, Option, none, some, ltb, ◌==◌,
  if◌then◌else◌,
}

-- `sameKey`, and the hash that `Value.Hash` and package hash/maphash give.
pub record Keys (K : Type 0) : Type 0 where
  pub same_key : K → K → Bool
  pub hash : K → ℕ

module _ {K : Type 0} (ops : Keys K) where
  abbrev pub KeySet : Type 0
  KeySet = ℕ → List K

  -- `NewKeySet`
  abbrev pub new_key_set : KeySet
  new_key_set h = []

  -- The loop of `Add` over a bucket.
  unfoldable pub find_key : List K → K → Bool
  find_key [] key = false
  find_key (got ∷ bucket) key = ops.same_key got key || find_key bucket key

  -- `KeySet.Add`
  unfoldable pub add_key : KeySet → K → KeySet × Bool
  unfolding find_key
  add_key s key =
      if find_key (s (ops.hash key)) key
      then (s, false)
      else (λ h. if h == ops.hash key then s h ++ key ∷ [] else s h, true)

  abbrev pub KeyCounts : Type 0
  KeyCounts = ℕ → List (K × ℕ)

  -- `NewKeyCounts`
  abbrev pub new_key_counts : KeyCounts
  new_key_counts h = []

  unfoldable pub bump : List (K × ℕ) → K → List (K × ℕ)
  bump [] key = (key, 1) ∷ []
  bump ((got, n) ∷ bucket) key =
      let rest = bump bucket key in
      if ops.same_key got key then (got, n + 1) ∷ bucket else (got, n) ∷ rest

  -- `KeyCounts.Add`
  unfoldable pub add_count : KeyCounts → K → KeyCounts
  unfolding bump
  add_count c key h = if h == ops.hash key then bump (c h) key else c h

  abbrev before : K × ℕ → List (K × ℕ) × Bool → List (K × ℕ) × Bool
  before e (bucket, found) = (e ∷ bucket, found)

  unfoldable pub take_from : List (K × ℕ) → K → List (K × ℕ) × Bool
  take_from [] key = ([], false)
  take_from ((got, n) ∷ bucket) key =
      let rest = take_from bucket key in
      if ops.same_key got key && ltb 0 n
      then ((got, n - 1) ∷ bucket, true)
      else before (got, n) rest

  -- `KeyCounts.Take`
  unfoldable pub take_count : KeyCounts → K → KeyCounts × Bool
  unfolding take_from
  take_count c key =
      let (bucket, found) = take_from (c (ops.hash key)) key in
      (λ h. if h == ops.hash key then bucket else c h, found)

  unfoldable pub known_in : List (K × ℕ) → K → Bool
  known_in [] key = false
  known_in ((got, n) ∷ bucket) key = ops.same_key got key || known_in bucket key

  -- `KeyCounts.Has`
  unfoldable pub has_key : KeyCounts → K → Bool
  unfolding known_in
  has_key c key = known_in (c (ops.hash key)) key
