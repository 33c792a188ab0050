-- ===== src/Exec/Sort/Stable.antt =====
-- A stable insertion sort sorts, and keeps the order of equal elements.
use Prim.Native.Nat.{Ordering, lt, eq, gt}
use mathlib.Core.Path.{subst}
use lightsql.Common.{
  Bool, true, false, ◌≡◌, ◌≢◌, ◌⊎◌, inl, inr, refl, sym, ap, ◌∙◌, List, [], ◌∷◌, All, keep,
  if◌then◌else◌, arith,
}
use lightsql.Types.Compare.Orders.{flip}
use lightsql.Exec.Sort.{insert_sorted, sort_stable}

abbrev pub is_equal : Ordering → Bool
is_equal eq = true
is_equal _ = false

-- A comparison that orders the elements that `P` holds of.
pub record OrdersOn {E : Type 0} (P : E → Type 0) (cmp : E → E → Ordering) : Type 0 where
  pub turned : (x y : E) → P x → P y → cmp y x ≡ flip (cmp x y)
  pub chain : (x y z : E) → P x → P y → P z → cmp x y ≢ gt → cmp y z ≢ gt → cmp x z ≢ gt

keep-yes :
    {E : Type 0} (p : E → Bool) (x : E) (xs : List E) → p x ≡ true → keep p (x ∷ xs) ≡ x ∷ keep p xs
unfolding keep
keep-yes p x xs h = rw h refl

keep-no :
    {E : Type 0} (p : E → Bool) (x : E) (xs : List E) → p x ≡ false → keep p (x ∷ xs) ≡ keep p xs
unfolding keep
keep-no p x xs h = rw h refl

module _ {E : Type 0} (cmp : E → E → Ordering) where
  -- No element comes before one that it is greater than.
  abbrev pub IsSorted : List E → Type 0
  IsSorted [] = Unit
  IsSorted (x ∷ xs) = All (λ y. cmp x y ≢ gt) xs × IsSorted xs

  -- The elements that are equal to `k`.
  abbrev pub like : E → E → Bool
  like k x = is_equal (cmp k x)

module _ {E : Type 0} (P : E → Type 0) (cmp : E → E → Ordering) (laws : OrdersOn P cmp) where
  gt-cases : (o : Ordering) → (o ≡ gt) ⊎ (o ≢ gt)
  gt-cases lt = inr (grind arith)
  gt-cases eq = inr (grind arith)
  gt-cases gt = inl refl

  insert_sorted-here :
      (x y : E) (ys : List E) → cmp x y ≢ gt → insert_sorted cmp x (y ∷ ys) ≡ x ∷ y ∷ ys
  unfolding insert_sorted
  insert_sorted-here x y ys h = go (cmp x y) refl
    where
      go : (o : Ordering) → cmp x y ≡ o → insert_sorted cmp x (y ∷ ys) ≡ x ∷ y ∷ ys
      go lt e = rw (insert_sorted, e) refl
      go eq e = rw (insert_sorted, e) refl
      go gt e = elim (h e) [ ]

  insert_sorted-later :
      (x y : E) (ys : List E)
      → cmp x y ≡ gt
      → insert_sorted cmp x (y ∷ ys) ≡ y ∷ insert_sorted cmp x ys
  unfolding insert_sorted
  insert_sorted-later x y ys h = rw (insert_sorted, h) refl

  All-insert_sorted :
      (Q : E → Type 0) (x : E) (ys : List E) → Q x → All Q ys → All Q (insert_sorted cmp x ys)
  All-insert_sorted Q x [] q all = unfold insert_sorted in (q, tt)
  All-insert_sorted Q x (y ∷ ys) q (qy, all) = elim (gt-cases (cmp x y)) [
    | inl after ↦
        subst (All Q) (sym (insert_sorted-later x y ys after)) (qy, All-insert_sorted Q x ys q all)
    | inr here ↦ subst (All Q) (sym (insert_sorted-here x y ys here)) (q, (qy, all))
  ]

  All-sort_stable : (Q : E → Type 0) (xs : List E) → All Q xs → All Q (sort_stable cmp xs)
  unfolding sort_stable
  All-sort_stable Q [] all = tt
  All-sort_stable Q (x ∷ xs) (q, all) =
      All-insert_sorted Q x (sort_stable cmp xs) q (All-sort_stable Q xs all)

  less_than-All :
      (x y : E) (ys : List E)
      → P x
      → P y
      → All P ys
      → cmp x y ≢ gt
      → All (λ z. cmp y z ≢ gt) ys
      → All (λ z. cmp x z ≢ gt) ys
  less_than-All x y [] px py ps h all = tt
  less_than-All x y (z ∷ ys) px py (pz, ps) h (hz, all) =
      (laws.chain x y z px py pz h hz, less_than-All x y ys px py ps h all)

  after_not_before : (x y : E) → P x → P y → cmp x y ≡ gt → cmp y x ≢ gt
  after_not_before x y px py h = grind (arith, laws.turned x y px py, h)

  insert_sorted-IsSorted :
      (x : E) (ys : List E)
      → P x
      → All P ys
      → IsSorted cmp ys
      → IsSorted cmp (insert_sorted cmp x ys)
  insert_sorted-IsSorted x [] px ps s = unfold insert_sorted in (tt, tt)
  insert_sorted-IsSorted x (y ∷ ys) px (py, ps) s = elim (gt-cases (cmp x y)) [
    | inl after ↦
        subst (IsSorted cmp) (sym (insert_sorted-later x y ys after))
          (later s after (insert_sorted-IsSorted x ys px ps s.1))
    | inr here ↦ subst (IsSorted cmp) (sym (insert_sorted-here x y ys here)) (first s here)
  ]
    where
      later :
          IsSorted cmp (y ∷ ys)
          → cmp x y ≡ gt
          → IsSorted cmp (insert_sorted cmp x ys)
          → IsSorted cmp (y ∷ insert_sorted cmp x ys)
      later (all, s) after below =
          (All-insert_sorted (λ z. cmp y z ≢ gt) x ys (after_not_before x y px py after) all, below)

      first : IsSorted cmp (y ∷ ys) → cmp x y ≢ gt → IsSorted cmp (x ∷ y ∷ ys)
      first (all, s) here = ((here, less_than-All x y ys px py ps here all), (all, s))

  pub sort_stable-IsSorted : (xs : List E) → All P xs → IsSorted cmp (sort_stable cmp xs)
  unfolding sort_stable
  sort_stable-IsSorted [] ps = tt
  sort_stable-IsSorted (x ∷ xs) (px, ps) =
      insert_sorted-IsSorted x (sort_stable cmp xs) px (All-sort_stable P xs ps)
        (sort_stable-IsSorted xs ps)

  equal_is_eq : (o : Ordering) → is_equal o ≡ true → o ≡ eq
  equal_is_eq lt h = ground arith
  equal_is_eq eq h = refl
  equal_is_eq gt h = ground arith

  eq_not_gt : (o : Ordering) → o ≡ eq → o ≢ gt
  eq_not_gt o h = grind (arith, h)

  -- What is equal to `k` is not greater than what is equal to `k`.
  likes_not_gt :
      (k x y : E) → P k → P x → P y → like cmp k x ≡ true → like cmp k y ≡ true → cmp x y ≢ gt
  likes_not_gt k x y pk px py hx hy =
      laws.chain x k y px pk py
        (eq_not_gt (cmp x k) (laws.turned k x pk px ∙ ap flip (equal_is_eq (cmp k x) hx)))
        (eq_not_gt (cmp k y) (equal_is_eq (cmp k y) hy))

  keep-insert_sorted :
      (k x : E) (ys : List E)
      → P k
      → P x
      → All P ys
      → keep (like cmp k) (insert_sorted cmp x ys) ≡ keep (like cmp k) (x ∷ ys)
  keep-insert_sorted k x [] pk px ps = unfold insert_sorted in refl
  keep-insert_sorted k x (y ∷ ys) pk px (py, ps) = elim (gt-cases (cmp x y)) [
    | inr here ↦ ap (keep (like cmp k)) (insert_sorted-here x y ys here)
    | inl after ↦
        ap (keep (like cmp k)) (insert_sorted-later x y ys after)
        ∙ swap (like cmp k x) (like cmp k y) refl refl after (keep-insert_sorted k x ys pk px ps)
  ]
    where
      swap :
          (a b : Bool)
          → like cmp k x ≡ a
          → like cmp k y ≡ b
          → cmp x y ≡ gt
          → keep (like cmp k) (insert_sorted cmp x ys) ≡ keep (like cmp k) (x ∷ ys)
          → keep (like cmp k) (y ∷ insert_sorted cmp x ys) ≡ keep (like cmp k) (x ∷ y ∷ ys)
      swap true true ea eb after e = elim (likes_not_gt k x y pk px py ea eb after) [ ]
      swap false true ea eb after e =
          keep-yes (like cmp k) y (insert_sorted cmp x ys) eb
          ∙ ap (λ (t : List E). y ∷ t) (e ∙ keep-no (like cmp k) x ys ea)
          ∙ sym (keep-no (like cmp k) x (y ∷ ys) ea ∙ keep-yes (like cmp k) y ys eb)
      swap true false ea eb after e =
          keep-no (like cmp k) y (insert_sorted cmp x ys) eb
          ∙ (e ∙ keep-yes (like cmp k) x ys ea)
          ∙ sym (
              keep-yes (like cmp k) x (y ∷ ys) ea
              ∙ ap (λ (t : List E). x ∷ t) (keep-no (like cmp k) y ys eb))
      swap false false ea eb after e =
          keep-no (like cmp k) y (insert_sorted cmp x ys) eb
          ∙ (e ∙ keep-no (like cmp k) x ys ea)
          ∙ sym (keep-no (like cmp k) x (y ∷ ys) ea ∙ keep-no (like cmp k) y ys eb)

  pub keep-sort_stable :
      (k : E) (xs : List E)
      → P k
      → All P xs
      → keep (like cmp k) (sort_stable cmp xs) ≡ keep (like cmp k) xs
  unfolding sort_stable keep
  keep-sort_stable k [] pk ps = refl
  keep-sort_stable k (x ∷ xs) pk (px, ps) =
      keep-insert_sorted k x (sort_stable cmp xs) pk px (All-sort_stable P xs ps)
      ∙ unfold keep in
        ap (λ (t : List E). if like cmp k x then x ∷ t else t) (keep-sort_stable k xs pk ps)
