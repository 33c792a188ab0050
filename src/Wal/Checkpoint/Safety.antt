-- ===== src/Wal/Checkpoint/Safety.antt =====
-- A checkpoint never leaves the directory without a complete log (internal/wal/log.go).
use lightsql.Common.{
  ℕ, Bool, true, false, not, List, [], ◌∷◌, ◌++◌, Option, some, ◌≡◌, ◌≢◌, ◌⊎◌, inl, inr, refl, All,
  by_test, if◌then◌else◌, Bytes, length, Result, ok, err, ◌>>=◌, ◌<◌, ◌^◌, ap, sym, ◌∙◌, append-nil,
}
use lightsql.Wal.Record.{Record}
use native.Mathlib.Omega.{arith}
use lightsql.Types.Value.{Value}
use lightsql.Wal.Frame.{encode}
use lightsql.Wal.Frame.RoundTrip.{IsTransaction, length-encode}
use lightsql.Wal.Log.{Log, magic, replay}
use lightsql.Wal.Log.Replay.{frames, replay_all, Replayed, replay_recovers, replay_tail}
use lightsql.Wal.Checkpoint.{
  Directory, Call, Outcome, write_checkpoint, install, swap_files, checkpoint, create, fill,
  close_tmp, remove_previous, link, rename, sync_dir, close_old, reopen,
}

-- The log is the old one, or it is the new one and the old one is kept.
abbrev pub OldOrNew : Directory → Bytes → Directory → Type 0
OldOrNew d new d' = (d'.wal ≡ d.wal) ⊎ ((d'.wal ≡ new) × (d'.previous ≡ some d.wal))

module _ (checksum : Bytes → ℕ) (fails : Call → Bool) (cut : ℕ) where
  abbrev AllOldOrNew : Directory → Bytes → Outcome → Type 0
  AllOldOrNew d new r = All (OldOrNew d new) r.0

  install-AllOldOrNew :
      (d : Directory) (new : Bytes) (dirs : List Directory) (l : Log)
      → All (OldOrNew d new) dirs
      → AllOldOrNew d new (install checksum fails cut dirs new l)
  unfolding install
  install-AllOldOrNew d new dirs l h =
      by_test (AllOldOrNew d new) (fails sync_dir) _ _ (λ e. h)
        (λ e.
          by_test (AllOldOrNew d new) (fails close_old) _ _ (λ e. h)
            (λ e. by_test (AllOldOrNew d new) (fails reopen) _ _ (λ e. h) (λ e. h)))

  swap_files-AllOldOrNew :
      (d : Directory) (new : Bytes) (l : Log)
      → AllOldOrNew d new (swap_files checksum fails cut new d l)
  unfolding swap_files
  swap_files-AllOldOrNew d new l =
      by_test (AllOldOrNew d new) (fails remove_previous) _ _
        (λ e. (inl refl, (inl refl, (inl refl, tt))))
        (λ e.
          by_test (AllOldOrNew d new) (fails link) _ _
            (λ e. (inl refl, (inl refl, (inl refl, (inl refl, tt)))))
            (λ e.
              by_test (AllOldOrNew d new) (fails rename) _ _
                (λ e. (inl refl, (inl refl, (inl refl, (inl refl, (inl refl, tt))))))
                (λ e.
                  install-AllOldOrNew d new _ l
                    (inl refl, (inl refl, (inl refl, (inl refl, (inr (refl, refl), tt))))))))

  -- Whichever calls fail, and wherever a crash stops a checkpoint: the directory holds the old log, or the
  -- new one, complete, with the old one under its second name.
  pub checkpoint-OldOrNew :
      (recs : List Record) (d : Directory) (l : Log)
      → All (OldOrNew d (write_checkpoint checksum recs)) (checkpoint checksum fails cut recs d l).0
  unfolding checkpoint
  checkpoint-OldOrNew recs d l =
      let new = write_checkpoint checksum recs in
      by_test (AllOldOrNew d new) (not l.replayed) _ _ (λ e. tt)
        (λ e.
          by_test (AllOldOrNew d new) (not l.dirty) _ _ (λ e. tt)
            (λ e.
              by_test (AllOldOrNew d new) (fails create) _ _ (λ e. tt)
                (λ e.
                  by_test (AllOldOrNew d new) (fails fill) _ _ (λ e. (inl refl, (inl refl, tt)))
                    (λ e.
                      by_test (AllOldOrNew d new) (fails close_tmp) _ _
                        (λ e. (inl refl, (inl refl, (inl refl, tt))))
                        (λ e. swap_files-AllOldOrNew d new l)))))

no_record : (r : Record) (rs : List Record) → r ∷ rs ≢ []
no_record r rs e = cc

replayed_one :
    (checksum : Bytes → ℕ) {S : Type 0} (l : Log) (ts : List (List Record)) (r : Result S)
    → (Replayed checksum l ts (r >>= λ s. ok s)).1 ≡ r
replayed_one checksum l ts (ok s) = refl
replayed_one checksum l ts (err c) = refl

abbrev pub is_empty {ℓ} : {A : Type ℓ} → List A → Bool
is_empty [] = true
is_empty (x ∷ xs) = false

-- The new log of a checkpoint, replayed after a restart, is the records of the checkpoint as one
-- transaction, or nothing if there are none.
pub replay-write_checkpoint :
    (checksum : Bytes → ℕ) (parse_jsonb : Bytes → Option Value)
    (word : (b : Bytes) → checksum b < 2 ^ 32) {S : Type 0} (fn : S → List Record → Result S)
    (s : S) (recs : List Record) (l : Log)
    → l.replayed ≡ false
    → l.file ≡ write_checkpoint checksum recs
    → (recs ≡ []) ⊎ IsTransaction parse_jsonb recs
    → (replay checksum parse_jsonb fn s l).1 ≡ (if is_empty recs then ok s else fn s recs)
unfolding write_checkpoint replay_all frames
replay-write_checkpoint checksum parse_jsonb word fn s [] l new e h =
    ap (λ p. p.1) (replay_tail checksum parse_jsonb fn s l [] new e (inl refl))
replay-write_checkpoint checksum parse_jsonb word fn s (r ∷ rs) l new e (inl h) =
    absurd (no_record r rs h)
replay-write_checkpoint checksum parse_jsonb word fn s (r ∷ rs) l new e (inr h) =
    let t = r ∷ rs in
    let back = sym (append-nil (encode checksum t)) ∙ sym (append-nil (encode checksum t ++ [])) in
    ap (λ p. p.1)
      (replay_recovers checksum parse_jsonb fn word s l (t ∷ []) [] new
        (e ∙ ap (λ b. magic ++ b) back) (h, tt) (inl refl)
        (omega
          (arith, length-encode checksum t, ap length (append-nil (encode checksum t)), h.short)))
    ∙ replayed_one checksum l (t ∷ []) (fn s t)
