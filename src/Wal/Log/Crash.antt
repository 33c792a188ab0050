-- ===== src/Wal/Log/Crash.antt =====
-- A crash, and the replay that follows (internal/wal/log.go).
use native.Mathlib.Omega.{arith}
use lightsql.Common.{
  ℕ, ◌^◌, ◌<◌, Bool, true, false, List, [], ◌∷◌, ◌++◌, Option, ◌≡◌, ◌⊎◌, inl, inr, refl, ap, sym,
  ◌∙◌, Code, none, some, All, All-append, append-nil, length-append, Bytes, length, Result, ok,
}
use lightsql.Types.Value.{Value}
use lightsql.Wal.Record.{Record}
use lightsql.Wal.Frame.RoundTrip.{IsTransaction, IsTail}
use lightsql.Wal.Log.{Log, magic, open_log, replay, write}
use lightsql.Wal.Log.Replay.{frames, replay_all, Replayed, replay_recovers}
use lightsql.Wal.Log.Recovery.{
  IsLogOf, is_whole, is_torn, is_unconfirmed, frames-append, IsDisk, acked_after, write-flushed,
  write-IsLogOf,
}

module _ (checksum : Bytes → ℕ) (parse_jsonb : Bytes → Option Value) where
  abbrev pub reopened : Log → Log
  reopened l = record {
    file = l.file;
    fsync = l.fsync;
    has_file = true;
    replayed = false;
    dirty = false;
  }

  open_log-magic :
      (rest : Bytes) (fsync : Bool)
      → open_log (magic ++ rest) fsync
        ≡ ok (record {
          file = magic ++ rest;
          fsync = fsync;
          has_file = true;
          replayed = false;
          dirty = false;
        })
  unfolding open_log
  open_log-magic rest fsync = refl

  reopen :
      (l : Log) (rest : Bytes) → l.file ≡ magic ++ rest → open_log l.file l.fsync ≡ ok (reopened l)
  reopen l rest e =
      ap (λ b. open_log b l.fsync) e
      ∙ open_log-magic rest l.fsync
      ∙ ap
          (λ (b : Bytes). ok (record {
            file = b;
            fsync = l.fsync;
            has_file = true;
            replayed = false;
            dirty = false;
          }))
          (sym e)

  -- Some transactions of which all but the last are those of `acked`, or all.
  abbrev pub UpToOneMore : List (List Record) → List (List Record) → Type 0
  UpToOneMore ts acked = (ts ≡ acked) ⊎ ((t : List Record) × (ts ≡ acked ++ t ∷ []))

  module _ (word : (b : Bytes) → checksum b < 2 ^ 32) {S : Type 0} (fn : S → List Record → Result S)
      (s : S) where
    abbrev pub Recovers : List (List Record) → Log → Type 0
    Recovers acked l =
        (ts : List (List Record)) × UpToOneMore ts acked
        × (open_log l.file l.fsync ≡ ok (reopened l))
        × (replay checksum parse_jsonb fn s (reopened l)
            ≡ Replayed checksum (reopened l) ts (replay_all fn s ts))

    by_frames :
        (acked ts : List (List Record)) (tail : Bytes) (l : Log)
        → UpToOneMore ts acked
        → All (IsTransaction parse_jsonb) ts
        → IsTail checksum parse_jsonb tail
        → length l.file < 2 ^ 32
        → l.file ≡ magic ++ (frames checksum ts ++ tail)
        → Recovers acked l
    by_frames acked ts tail l up hs ht room e = (
      ts,
      up,
      reopen l (frames checksum ts ++ tail) e,
      replay_recovers checksum parse_jsonb fn word s (reopened l) ts tail refl e hs ht (
          omega (
            arith,
            ap length e,
            length-append magic (frames checksum ts ++ tail),
            length-append (frames checksum ts) tail,
          )),
    )

    untailed : (b : Bytes) → magic ++ b ≡ magic ++ (b ++ [])
    untailed b = ap (λ t. magic ++ t) (sym (append-nil b))

    log-Recovers :
        (acked : List (List Record)) (l : Log)
        → All (IsTransaction parse_jsonb) acked
        → IsLogOf checksum parse_jsonb acked l
        → length l.file < 2 ^ 32
        → Recovers acked l
    log-Recovers acked l hs (is_whole e) room =
        by_frames acked acked [] l (inl refl) hs (inl refl) room
          (e ∙ untailed (frames checksum acked))
    log-Recovers acked l hs (is_torn tail closed ht e) room =
        by_frames acked acked tail l (inl refl) hs ht room e
    log-Recovers acked l hs (is_unconfirmed t closed h e) room =
        by_frames acked (acked ++ t ∷ []) [] l (inr (t, refl))
          (All-append (IsTransaction parse_jsonb) acked (t ∷ []) hs (h, tt)) (inl refl) room
          (e
            ∙ ap (λ b. magic ++ b) (sym (frames-append checksum parse_jsonb acked t))
            ∙ untailed (frames checksum (acked ++ t ∷ [])))

    module _ (disk_write : Bytes → Bytes × Bool) (disk_sync : Bytes → Bool)
        (disk : IsDisk disk_write) where
      after_write :
          (acked : List (List Record)) (t : List Record) (o : Option Code)
          → All (IsTransaction parse_jsonb) acked
          → IsTransaction parse_jsonb t
          → All (IsTransaction parse_jsonb) (acked_after checksum parse_jsonb acked t o)
      after_write acked t none hs h =
          All-append (IsTransaction parse_jsonb) acked (t ∷ []) hs (h, tt)
      after_write acked t (some c) hs h = hs

      -- A crash behind a write, on a replayed log that holds what was written with success before, with
      -- at most the whole or a part of one transaction more whose write failed. Each transaction can be
      -- encoded, in at most 1 GiB, and the log is below 4 GiB; of a write a prefix reaches the file,
      -- and all of it if the system reports success. Where fsync is on, Write reports success only if
      -- Sync has succeeded on the file as it is then. And if the crash leaves the file as it is,
      -- opening it again and replaying it hands over every transaction that was written with success,
      -- in order and whole, and at most one more: the last, whose write failed.
      pub crash-Recovers :
          (acked : List (List Record)) (t : List Record) (l : Log)
          → All (IsTransaction parse_jsonb) acked
          → IsTransaction parse_jsonb t
          → l.replayed ≡ true
          → IsLogOf checksum parse_jsonb acked l
          → length (write checksum disk_write disk_sync t l).0.file < 2 ^ 32
          → let r = write checksum disk_write disk_sync t l in
            (l.fsync ≡ true → r.1 ≡ none → disk_sync r.0.file ≡ true)
            × Recovers (acked_after checksum parse_jsonb acked t r.1) r.0
      crash-Recovers acked t l hs h new is_log room =
          let r = write checksum disk_write disk_sync t l in
          (
            write-flushed checksum parse_jsonb word disk_write disk_sync disk t l h.some_record new,
            log-Recovers (acked_after checksum parse_jsonb acked t r.1) r.0
                (after_write acked t r.1 hs h)
                (write-IsLogOf checksum parse_jsonb word disk_write disk_sync disk acked t l h new
                  is_log)
                room,
          )
