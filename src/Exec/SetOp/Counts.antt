-- ===== src/Exec/SetOp/Counts.antt =====
-- How many copies of a row the set operations of internal/exec/setop.go give.
use lightsql.Common.{
  ℕ, ◌+◌, ◌-◌, ◌≡◌, refl, sym, ap, ◌∙◌, Bool, true, false, ◌&&◌, ◌||◌, not, List, [], ◌∷◌, ◌++◌,
  Option, none, some, ltb, ◌==◌, if◌then◌else◌, arith, Bool-cases, inl, inr, min, Code,
}
use lightsql.Builtin.Keys.{
  Keys, KeySet, new_key_set, add_key, find_key, known_in, KeyCounts, new_key_counts, add_count,
  take_count, has_key,
}
use lightsql.Builtin.Keys.Laws.{
  IsKeys, one_if, count, in_set, in_set_congr, in_set-add_key, left, left_congr, left-add_count,
  left-take_count, has_key-add_count, has_key_congr, total,
}
use lightsql.Exec.SetOp.{
  SetOpKind, set_union, set_intersect, set_except, Rows, Seen, keep_row, kept, load_right,
  candidates, fresh, set_op,
}

-- The copies of a row in the output, where it has `m` on the left and `n` on the right side.
unfoldable pub copies : SetOpKind → Bool → ℕ → ℕ → ℕ
copies set_union true m n = m + n
copies set_union false m n = min 1 (m + n)
copies set_intersect true m n = min m n
copies set_intersect false m n = min 1 (min m n)
copies set_except true m n = m - n
copies set_except false m n = if n == 0 then min 1 m else 0

module _ {K : Type 0} (ops : Keys K) (law : IsKeys ops) where
  count-append :
      (k : K) (xs ys : List K)
      → count ops law k (xs ++ ys) ≡ count ops law k xs + count ops law k ys
  unfolding count
  count-append k [] ys = omega arith
  count-append k (x ∷ xs) ys = ground (arith, count-append k xs ys)

  left-load_right :
      (rows : List K) (c : KeyCounts ops) (k : K)
      → left ops law (load_right ops rows c) k ≡ left ops law c k + count ops law k rows
  unfolding load_right count
  left-load_right [] c k = ground arith
  left-load_right (x ∷ rows) c k =
      ground (arith, left-load_right rows (add_count ops c x) k, left-add_count ops law c x k)

  has_key-load_right :
      (rows : List K) (c : KeyCounts ops) (k : K)
      → has_key ops (load_right ops rows c) k ≡ has_key ops c k || ltb 0 (count ops law k rows)
  unfolding load_right count
  has_key-load_right [] c k = ground arith
  has_key-load_right (x ∷ rows) c k =
      ground (arith, has_key-load_right rows (add_count ops c x) k, has_key-add_count ops law c x k)

  -- Whether a distinct form has room for a row at all.
  abbrev wanted : SetOpKind → KeyCounts ops → K → Bool
  wanted set_union c k = true
  wanted set_intersect c k = has_key ops c k
  wanted set_except c k = not (has_key ops c k)

  wanted_congr :
      (op : SetOpKind) (c : KeyCounts ops) (x k : K)
      → ops.same_key x k ≡ true
      → wanted op c x ≡ wanted op c k
  wanted_congr set_union c x k e = refl
  wanted_congr set_intersect c x k e = has_key_congr ops law c x k e
  wanted_congr set_except c x k e = ap not (has_key_congr ops law c x k e)

  kept-skip :
      (op : SetOpKind) (x : K) (rows : List K) (s : KeySet ops) (c : KeyCounts ops)
      → wanted op c x ≡ false
      → kept ops op false (x ∷ rows) (record { seen = s; counts = c })
        ≡ kept ops op false rows (record { seen = s; counts = c })
  unfolding kept keep_row
  kept-skip set_union x rows s c w = ground arith
  kept-skip set_intersect x rows s c w = rw w refl
  kept-skip set_except x rows s c w = rw w refl

  abbrev if_new : Bool → K → List K → List K
  if_new b x xs = if b then x ∷ xs else xs

  kept-once :
      (op : SetOpKind) (x : K) (rows : List K) (s : KeySet ops) (c : KeyCounts ops)
      → wanted op c x ≡ true
      → kept ops op false (x ∷ rows) (record { seen = s; counts = c })
        ≡ if_new
            (add_key ops s x).1
            x
            (kept ops op false rows (record { seen = (add_key ops s x).0; counts = c }))
  unfolding kept keep_row
  kept-once set_union x rows s c w = refl
  kept-once set_intersect x rows s c w = rw w refl
  kept-once set_except x rows s c w = rw w refl

  abbrev some_of : ℕ → Bool
  some_of n = ltb 0 n

  count-if_new :
      (b : Bool) (x k : K) (xs : List K)
      → count ops law k (if_new b x xs) ≡ one_if (b && ops.same_key x k) + count ops law k xs
  count-if_new true x k xs = unfold count in refl
  count-if_new false x k xs = omega arith

  one_more :
      (w sx sk e : Bool) (n : ℕ)
      → (e ≡ true → w ≡ true)
      → (e ≡ true → sx ≡ sk)
      → one_if (not sx && e) + one_if (w && (not (sk || e) && some_of n))
        ≡ one_if (w && (not sk && some_of (one_if e + n)))
  one_more w sx sk true n h k = rw (h refl, k refl) (ground arith)
  one_more w sx sk false n h k = ground arith

  -- A distinct form gives one copy of a row that it wants, has not given before, and finds among its candidates.
  count-kept_once :
      (op : SetOpKind) (rows : List K) (s : KeySet ops) (c : KeyCounts ops) (k : K)
      → count ops law k (kept ops op false rows (record { seen = s; counts = c }))
        ≡ one_if (wanted op c k && (not (in_set ops law s k) && some_of (count ops law k rows)))
  count-kept_once op [] s c k = unfold kept count in ground arith
  count-kept_once op (x ∷ rows) s c k = elim (Bool-cases (wanted op c x)) [
    | inl want ↦
        let (now, new) = in_set-add_key ops law s x k in
        rw
          (
            kept-once op x rows s c want,
            count-if_new (add_key ops s x).1 x k
                (kept ops op false rows (record { seen = (add_key ops s x).0; counts = c })),
            count-kept_once op rows (add_key ops s x).0 c k,
            now,
            new,
          )
          (unfold count in
            one_more (wanted op c k) (in_set ops law s x) (in_set ops law s k) (ops.same_key x k)
              (count ops law k rows) (λ e. sym (wanted_congr op c x k e) ∙ want)
              (in_set_congr ops law s x k))
    | inr unwanted_row ↦
        rw (kept-skip op x rows s c unwanted_row, count-kept_once op rows s c k)
          (unfold count in
            unwanted (wanted op c k) (in_set ops law s k) (ops.same_key x k) (count ops law k rows)
              (λ e. sym (wanted_congr op c x k e) ∙ unwanted_row))
  ]
    where
      unwanted :
          (w sk e : Bool) (n : ℕ)
          → (e ≡ true → w ≡ false)
          → one_if (w && (not sk && some_of n)) ≡ one_if (w && (not sk && some_of (one_if e + n)))
      unwanted w sk true n h = rw (h refl) refl
      unwanted w sk false n h = ground arith

  kept-all_union : (rows : List K) (o : Seen ops) → kept ops set_union true rows o ≡ rows
  unfolding kept keep_row
  kept-all_union [] o = refl
  kept-all_union (x ∷ rows) o = ap (λ (t : List K). x ∷ t) (kept-all_union rows o)

  kept-all_intersect :
      (x : K) (rows : List K) (s : KeySet ops) (c : KeyCounts ops)
      → kept ops set_intersect true (x ∷ rows) (record { seen = s; counts = c })
        ≡ if_new (take_count ops c x).1 x (
            kept ops set_intersect true rows (record { seen = s; counts = (take_count ops c x).0 }))
  unfolding kept keep_row
  kept-all_intersect x rows s c = refl

  kept-all_except :
      (x : K) (rows : List K) (s : KeySet ops) (c : KeyCounts ops)
      → kept ops set_except true (x ∷ rows) (record { seen = s; counts = c })
        ≡ if_new
            (not (take_count ops c x).1)
            x
            (kept ops set_except true rows (record { seen = s; counts = (take_count ops c x).0 }))
  unfolding kept keep_row
  kept-all_except x rows s c = refl

  count-intersect_all :
      (rows : List K) (s : KeySet ops) (c : KeyCounts ops) (k : K)
      → count ops law k (kept ops set_intersect true rows (record { seen = s; counts = c }))
        ≡ min (count ops law k rows) (left ops law c k)
  count-intersect_all [] s c k = unfold kept count in ground arith
  count-intersect_all (x ∷ rows) s c k =
      let (found, less) = left-take_count ops law c x k in
      rw
        (
          kept-all_intersect x rows s c,
          count-if_new (take_count ops c x).1 x k (
              kept ops set_intersect true rows
                (record { seen = s; counts = (take_count ops c x).0 })),
          count-intersect_all rows s (take_count ops c x).0 k,
          found,
          less,
        )
        (unfold count in
          step (left ops law c x) (left ops law c k) (count ops law k rows) (ops.same_key x k)
            (left_congr ops law c x k))
    where
      step :
          (lx lk n : ℕ) (e : Bool)
          → (e ≡ true → lx ≡ lk)
          → one_if (ltb 0 lx && e) + min n (lk - one_if (ltb 0 lx && e)) ≡ min (one_if e + n) lk
      step lx lk n true h = rw (h refl) (ground arith)
      step lx lk n false h = ground arith

  count-except_all :
      (rows : List K) (s : KeySet ops) (c : KeyCounts ops) (k : K)
      → count ops law k (kept ops set_except true rows (record { seen = s; counts = c }))
        ≡ count ops law k rows - left ops law c k
  count-except_all [] s c k = unfold kept count in ground arith
  count-except_all (x ∷ rows) s c k =
      let (found, less) = left-take_count ops law c x k in
      rw
        (
          kept-all_except x rows s c,
          count-if_new (not (take_count ops c x).1) x k (
              kept ops set_except true rows (record { seen = s; counts = (take_count ops c x).0 })),
          count-except_all rows s (take_count ops c x).0 k,
          found,
          less,
        )
        (unfold count in
          step (left ops law c x) (left ops law c k) (count ops law k rows) (ops.same_key x k)
            (left_congr ops law c x k))
    where
      step :
          (lx lk n : ℕ) (e : Bool)
          → (e ≡ true → lx ≡ lk)
          → one_if (not (ltb 0 lx) && e) + (n - (lk - one_if (ltb 0 lx && e))) ≡ one_if e + n - lk
      step lx lk n true h = rw (h refl) (ground arith)
      step lx lk n false h = ground arith

  none_before : (k : K) → in_set ops law (new_key_set ops) k ≡ false
  none_before k = unfold find_key in refl

  right_counts : List K → KeyCounts ops
  right_counts rows = load_right ops rows (new_key_counts ops)

  left-right_counts :
      (rows : List K) (k : K) → left ops law (right_counts rows) k ≡ count ops law k rows
  unfolding right_counts
  left-right_counts rows k =
      left-load_right rows (new_key_counts ops) k ∙ unfold total in omega arith

  has_key-right_counts :
      (rows : List K) (k : K) → has_key ops (right_counts rows) k ≡ some_of (count ops law k rows)
  unfolding right_counts
  has_key-right_counts rows k =
      has_key-load_right rows (new_key_counts ops) k ∙ unfold has_key known_in in refl

  set_op-ok :
      (op : SetOpKind) (all : Bool) (l r : Rows K)
      → (set_op ops op all l r).1 ≡ none
      → (l.1 ≡ none) × (r.1 ≡ none)
  unfolding set_op candidates
  set_op-ok set_union all (ls, none) (rs, e) h = (refl, h)
  set_op-ok set_union all (ls, some c) (rs, e) h = ground arith
  set_op-ok set_intersect all (ls, e) (rs, none) h = (h, refl)
  set_op-ok set_intersect all (ls, e) (rs, some c) h = ground arith
  set_op-ok set_except all (ls, e) (rs, none) h = (h, refl)
  set_op-ok set_except all (ls, e) (rs, some c) h = ground arith

  count-set_op_rows :
      (op : SetOpKind) (all : Bool) (ls rs : List K) (k : K)
      → count ops law k (set_op ops op all (ls, none) (rs, none)).0
        ≡ copies op all (count ops law k ls) (count ops law k rs)
  unfolding set_op candidates copies
  count-set_op_rows set_union true ls rs k =
      rw (kept-all_union (ls ++ rs) (fresh ops (new_key_counts ops))) (count-append k ls rs)
  count-set_op_rows set_union false ls rs k =
      count-kept_once set_union (ls ++ rs) (new_key_set ops) (new_key_counts ops) k
      ∙ rw (none_before k, count-append k ls rs) (ground arith)
  count-set_op_rows set_intersect true ls rs k =
      unfold right_counts in
      (count-intersect_all ls (new_key_set ops) (right_counts rs) k
        ∙ rw (left-right_counts rs k) refl)
  count-set_op_rows set_intersect false ls rs k =
      unfold right_counts in
      (count-kept_once set_intersect ls (new_key_set ops) (right_counts rs) k
        ∙ rw (none_before k, has_key-right_counts rs k) (ground arith))
  count-set_op_rows set_except true ls rs k =
      unfold right_counts in
      (count-except_all ls (new_key_set ops) (right_counts rs) k ∙ rw (left-right_counts rs k) refl)
  count-set_op_rows set_except false ls rs k =
      unfold right_counts in
      (count-kept_once set_except ls (new_key_set ops) (right_counts rs) k
        ∙ rw (none_before k, has_key-right_counts rs k) (ground arith))

  -- For keys with an equivalence and a hash that respects it, a set operation that ends without an
  -- error has read both sides without one, and gives of every row as many copies as SQL asks for:
  -- with m copies on the left and n on the right side, m + n for UNION ALL, the lesser of the two
  -- for INTERSECT ALL, and m - n for EXCEPT ALL, but no less than none; without ALL, one copy if
  -- there is one on either side, on both, or on the left side only.
  pub count-set_op :
      (op : SetOpKind) (all : Bool) (l r : Rows K) (k : K)
      → (set_op ops op all l r).1 ≡ none
      → (l.1 ≡ none)
        × (r.1 ≡ none)
        × (count ops law k (set_op ops op all l r).0
            ≡ copies op all (count ops law k l.0) (count ops law k r.0))
  count-set_op op all l r k h =
      let (hl, hr) = set_op-ok op all l r h in
      (
        hl,
        hr,
        ap (λ (e : Option Code). count ops law k (set_op ops op all (l.0, e) r).0) hl
            ∙ ap (λ (e : Option Code). count ops law k (set_op ops op all (l.0, none) (r.0, e)).0)
                hr
            ∙ count-set_op_rows op all l.0 r.0 k,
      )
