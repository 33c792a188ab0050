-- ===== src/Engine/Recover/Records.antt =====
-- What recovery makes of records of rows (internal/engine/persist.go).
use lightsql.Common.{
  ℕ, ◌≡◌, ◌⊎◌, refl, sym, ap, ◌∙◌, Bool, true, false, List, [], ◌∷◌, ◌++◌, map, All, Option, none,
  if◌then◌else◌, Bytes, Code, ok, err, ◌>>=◌, bind_ext, bind_assoc, arith,
}
use mathlib.Core.Path.{subst}
use lightsql.Types.Value.{Value}
use lightsql.Wal.Record.{Record, RecordKind, ddl, insert, delete, missing, insert_record}
use lightsql.Engine.Recover.{
  Schema, Held, put, table_records, all_records, Recovering, set_rows, apply, apply_kind,
  with_table, apply_all, fresh,
}
use lightsql.Engine.Recover.Rows.{IsAscending, fill, fill-append, either_way}

module _ (sch : Schema) where
  open sch use {Cat, Table, same_table, lookup_qualified}

  pub apply_all-append :
      (stop : Option ℕ) (e : Recovering sch) (xs ys : List Record)
      → apply_all sch stop e (xs ++ ys)
        ≡ apply_all sch stop e xs >>= λ (e' : Recovering sch). apply_all sch stop e' ys
  unfolding apply_all
  apply_all-append stop e [] ys = refl
  apply_all-append stop e (x ∷ xs) ys = sym (
      bind_assoc (apply sch stop x e) (λ e'. apply_all sch stop e' xs)
        (λ e'. apply_all sch stop e' ys)
      ∙ bind_ext (apply sch stop x e) _ _ (λ e'. sym (apply_all-append stop e' xs ys)))

  set_twice :
      (t u : Table) (f : Held → Held) (held : Table → Held) (rows : Held)
      → (if same_table t u then fill (set_rows sch t f held u) rows else set_rows sch t f held u)
        ≡ (if same_table t u then fill (f (held u)) rows else held u)
  unfolding set_rows
  set_twice t u f held rows = go (same_table t u) (f (held u)) (held u)
    where
      go :
          (b : Bool) (x y : Held)
          → (if b then fill (if b then x else y) rows else (if b then x else y))
            ≡ (if b then fill x rows else y)
      go true x y = refl
      go false x y = refl

  apply-insert_record :
      (name : Bytes) (t : Table) (id : ℕ) (vals : List Value) (e : Recovering sch)
      → lookup_qualified name e.cat ≡ ok t
      → apply sch none (insert_record name id vals) e
        ≡ ok (record e { rows = set_rows sch t (put id vals) e.rows })
  unfolding apply insert_record with_table
  apply-insert_record name t id vals e known = rw (with_table, known) refl

  table_records_lem :
      (name : Bytes) (t : Table) (rows : Held) (e : Recovering sch)
      → lookup_qualified name e.cat ≡ ok t
      → (e' : Recovering sch) × (apply_all sch none e (table_records name rows) ≡ ok e')
        × (e'.cat ≡ e.cat)
        × (e'.schema ≡ e.schema)
        × ((u : Table) → e'.rows u ≡ (if same_table t u then fill (e.rows u) rows else e.rows u))
  unfolding apply_all table_records
  table_records_lem name t [] e known =
      (e, refl, refl, refl, λ u. either_way (same_table t u) (e.rows u))
  table_records_lem name t ((id, vals) ∷ rows) e known =
      let e1 : Recovering sch = record e { rows = set_rows sch t (put id vals) e.rows } in
      let (e', done, cat, history, held) = table_records_lem name t rows e1 known in
      (
        e',
        ap (λ r. r >>= λ (e2 : Recovering sch). apply_all sch none e2 (table_records name rows))
              (apply-insert_record name t id vals e known)
            ∙ done,
        cat,
        history,
        λ u. held u ∙ set_twice t u (put id vals) e.rows rows,
      )

  -- A table with its qualified name and its rows.
  abbrev pub Stored : Type 0
  Stored = Bytes × Table × Held

  abbrev pub named_rows : Stored → Bytes × Held
  named_rows (name, t, rows) = (name, rows)

  -- The catalog knows each table by its name, and no two are one table; their rows are in the order of their ids.
  abbrev pub IsStored : Cat → List Stored → Type 0
  IsStored cat [] = Unit
  IsStored cat ((name, t, rows) ∷ ts) =
      (lookup_qualified name cat ≡ ok t)
      × IsAscending rows
      × (same_table t t ≡ true)
      × All (λ s. (same_table t s.1 ≡ false) × (same_table s.1 t ≡ false)) ts
      × IsStored cat ts

  abbrev pub Empty : Recovering sch → List Stored → Type 0
  Empty e ts = All (λ s. e.rows s.1 ≡ []) ts

  remaining-Empty :
      (t : Table) (rows : Held) (e e' : Recovering sch) (ts : List Stored)
      → ((u : Table) → e'.rows u ≡ (if same_table t u then fill (e.rows u) rows else e.rows u))
      → All (λ s. (same_table t s.1 ≡ false) × (same_table s.1 t ≡ false)) ts
      → Empty e ts
      → Empty e' ts
  remaining-Empty t rows e e' [] held other empty = tt
  remaining-Empty t rows e e' (s ∷ ts) held other empty = (
    held s.1 ∙ ap (λ b. if b then fill (e.rows s.1) rows else e.rows s.1) other.0.0 ∙ empty.0,
    remaining-Empty t rows e e' ts held other.1 empty.1,
  )

  seconds :
      (t : Table) (ts : List Stored)
      → All (λ s. (same_table t s.1 ≡ false) × (same_table s.1 t ≡ false)) ts
      → All (λ s. same_table s.1 t ≡ false) ts
  seconds t [] h = tt
  seconds t (s ∷ ts) h = (h.0.1, seconds t ts h.1)

  pub all_records_lem :
      (ts : List Stored) (e : Recovering sch)
      → IsStored e.cat ts
      → Empty e ts
      → (e' : Recovering sch) × (apply_all sch none e (all_records (map named_rows ts)) ≡ ok e')
        × (e'.cat ≡ e.cat)
        × (e'.schema ≡ e.schema)
        × All (λ s. e'.rows s.1 ≡ s.2) ts
        × ((u : Table) → All (λ s. same_table s.1 u ≡ false) ts → e'.rows u ≡ e.rows u)
  unfolding all_records
  all_records_lem [] e stored empty = (e, unfold apply_all in refl, refl, refl, tt, λ u h. refl)
  all_records_lem ((name, t, rows) ∷ ts) e (known, order, self, other, stored) empty =
      let (e1, done1, cat1, history1, held1) = table_records_lem name t rows e known in
      let (e2, done2, cat2, history2, held2, rest2) =
        all_records_lem ts e1 (subst (λ c. IsStored c ts) (sym cat1) stored)
          (remaining-Empty t rows e e1 ts held1 other empty.1) in
      (
        e2,
        apply_all-append none e (table_records name rows) (all_records (map named_rows ts))
            ∙ ap
                (λ r. r >>= λ (e' : Recovering sch).
                  apply_all sch none e' (all_records (map named_rows ts)))
                done1
            ∙ done2,
        cat2 ∙ cat1,
        history2 ∙ history1,
        (
          rest2 t (seconds t ts other)
              ∙ held1 t
              ∙ ap (λ b. if b then fill (e.rows t) rows else e.rows t) self
              ∙ ap (λ h. fill h rows) empty.0
              ∙ fill-append [] rows tt order,
          held2,
        ),
        λ u h. rest2 u h.1 ∙ held1 u ∙ ap (λ b. if b then fill (e.rows u) rows else e.rows u) h.0,
      )

  -- Applying records ends with the error of LookupQualified at the first row of a table that is not known
  -- by its name there, whatever stands behind it.
  pub apply_all_unknown :
      (before after : List Record) (rec : Record) (e : Recovering sch) (c : Code)
      → apply_all sch none (fresh sch) before ≡ ok e
      → (rec.kind ≡ insert) ⊎ (rec.kind ≡ delete)
      → lookup_qualified rec.table e.cat ≡ err c
      → apply_all sch none (fresh sch) (before ++ rec ∷ after) ≡ err c
  unfolding apply_all apply apply_kind with_table
  apply_all_unknown before after rec e c h kind unknown =
      apply_all-append none (fresh sch) before (rec ∷ after)
      ∙ ap (λ r. r >>= λ (e' : Recovering sch). apply_all sch none e' (rec ∷ after)) h
      ∙ ap (λ r. r >>= λ (e' : Recovering sch). apply_all sch none e' after) (at_row rec.kind kind)
    where
      at_row : (k : RecordKind) → (k ≡ insert) ⊎ (k ≡ delete) → apply_kind sch k none rec e ≡ err c
      at_row insert k = rw (with_table, unknown) refl
      at_row delete k = rw (with_table, unknown) refl
      at_row ddl k = ground arith
      at_row missing k = ground arith
