-- ===== src/Types/Compare/Orders.antt =====
-- Total orders, and those that Compare of internal/types/value.go is made of.
use Prim.Native.Nat.{compare as cmp_ℕ, Ordering, lt, eq, gt}
use lightsql.Common.{◌+◌, [], ◌∷◌, Option, none, some, Bytes, ◌≡◌, ◌≢◌, refl, sym, ap, ◌∙◌, arith}
use lightsql.Types.Decimal.{Decimal, cmp_ℤ, align, rescale}
use lightsql.Types.Decimal
use lightsql.Types.Decimal.Order.{at_scale, cmp-at_scale, cmp_trans}
use lightsql.Types.Compare.{cmp_bytes}

abbrev pub flip : Ordering → Ordering
flip lt = gt
flip eq = eq
flip gt = lt

-- A comparison that orders its type totally, up to what it finds equal.
pub record IsOrder {A : Type 0} (c : A → A → Ordering) : Type 0 where
  pub same : (x : A) → c x x ≡ eq
  pub turned : (x y : A) → c y x ≡ flip (c x y)
  pub chain : (x y z : A) → c x y ≢ gt → c y z ≢ gt → c x z ≢ gt

pub cmp_ℕ-IsOrder : IsOrder cmp_ℕ
cmp_ℕ-IsOrder = record {
  same = λ x. ground arith;
  turned = λ x y. ground arith;
  chain = λ x y z h k. ground arith;
}

pub cmp_ℤ-IsOrder : IsOrder cmp_ℤ
cmp_ℤ-IsOrder = record {
  same = λ x. ground arith;
  turned = λ x y. ground arith;
  chain = λ x y z h k. ground arith;
}

cmp_bytes_refl : (x : Bytes) → cmp_bytes x x ≡ eq
unfolding cmp_bytes
cmp_bytes_refl [] = refl
cmp_bytes_refl (x ∷ xs) = ground (arith, cmp_bytes_refl xs)

cmp_bytes_turned : (x y : Bytes) → cmp_bytes y x ≡ flip (cmp_bytes x y)
unfolding cmp_bytes
cmp_bytes_turned [] [] = refl
cmp_bytes_turned [] (y ∷ ys) = refl
cmp_bytes_turned (x ∷ xs) [] = refl
cmp_bytes_turned (x ∷ xs) (y ∷ ys) = ground (arith, cmp_bytes_turned xs ys)

cmp_bytes_chain : (x y z : Bytes) → cmp_bytes x y ≢ gt → cmp_bytes y z ≢ gt → cmp_bytes x z ≢ gt
unfolding cmp_bytes
cmp_bytes_chain [] y [] h k = λ e. cc
cmp_bytes_chain [] y (z ∷ zs) h k = λ e. cc
cmp_bytes_chain (x ∷ xs) [] z h k = absurd (h refl)
cmp_bytes_chain (x ∷ xs) (y ∷ ys) [] h k = absurd (k refl)
cmp_bytes_chain (x ∷ xs) (y ∷ ys) (z ∷ zs) h k = ground (arith, cmp_bytes_chain xs ys zs)

pub cmp_bytes-IsOrder : IsOrder cmp_bytes
cmp_bytes-IsOrder = record {
  same = cmp_bytes_refl;
  turned = cmp_bytes_turned;
  chain = cmp_bytes_chain;
}

pub cmp-IsOrder : IsOrder Decimal.cmp
cmp-IsOrder = record {
  same = λ x.
      cmp-at_scale x x x.scale (omega arith) (omega arith)
      ∙ cmp_ℤ-IsOrder.same (at_scale x.scale x);
  turned = λ x y.
      let t = x.scale + y.scale in
      cmp-at_scale y x t (omega arith) (omega arith)
      ∙ cmp_ℤ-IsOrder.turned (at_scale t x) (at_scale t y)
      ∙ ap flip (sym (cmp-at_scale x y t (omega arith) (omega arith)));
  chain = cmp_trans;
}

-- The order of the images.
pub along :
    {A B : Type 0} (f : B → A) (c : A → A → Ordering) → IsOrder c → IsOrder (λ x y. c (f x) (f y))
along f c o = record {
  same = λ x. o.same (f x);
  turned = λ x y. o.turned (f x) (f y);
  chain = λ x y z. o.chain (f x) (f y) (f z);
}

-- Absent values come last.
abbrev pub last : {A : Type 0} → (A → A → Ordering) → Option A → Option A → Ordering
last c none none = eq
last c none (some y) = gt
last c (some x) none = lt
last c (some x) (some y) = c x y

pub last-IsOrder : {A : Type 0} (c : A → A → Ordering) → IsOrder c → IsOrder (last c)
last-IsOrder c o = record { same = same; turned = turned; chain = chain }
  where
    same : (x : Option _) → last c x x ≡ eq
    same none = refl
    same (some x) = o.same x

    turned : (x y : Option _) → last c y x ≡ flip (last c x y)
    turned none none = refl
    turned none (some y) = refl
    turned (some x) none = refl
    turned (some x) (some y) = o.turned x y

    chain : (x y z : Option _) → last c x y ≢ gt → last c y z ≢ gt → last c x z ≢ gt
    chain none none z h k = k
    chain none (some y) z h k = absurd (h refl)
    chain (some x) y none h k = λ e. cc
    chain (some x) none (some z) h k = absurd (k refl)
    chain (some x) (some y) (some z) h k = o.chain x y z h k
