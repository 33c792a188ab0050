-- ===== src/Wal/Log/Limits.antt =====
-- Logs that Write accepts and Replay does not read (internal/wal/log.go).
use native.Mathlib.Omega.{arith}
use lightsql.Common.{
  ℕ, ◌+◌, ◌%◌, ◌^◌, ◌<◌, Bool, true, false, List, [], ◌∷◌, ◌++◌, Option, none, not, ◌&&◌, by_test,
  ◌≡◌, ◌≢◌, inr, refl, ap, sym, ◌∙◌, All, append_assoc, append-nil, Bytes, length, Result, ok, Code,
}
use lightsql.Types.Value.{Value}
use lightsql.Wal.Record.{Record}
use lightsql.Wal.Frame.{body, encode, next_frame}
use lightsql.Wal.Frame.RoundTrip.{
  IsTransaction, IsTail, length-encode, next_frame-oversized, next_frame-far,
}
use lightsql.Wal.Log.{Log, magic, replay, write, append_frame}
use lightsql.Wal.Log.Replay.{frames, replay_all, Replayed, replay_recovers, replay_tail}
use lightsql.Wal.Log.Crash.{reopened}

-- A disk on which nothing fails.
abbrev pub good_write : Bytes → Bytes × Bool
good_write b = (b, true)

abbrev pub good_sync : Bytes → Bool
good_sync b = true

not_refused : (b : Bool) → b ≡ true → not b ≢ true
not_refused b h e = ground arith

never : (b : Bool) → b && false ≢ true
never b e = ground arith

module _ (checksum : Bytes → ℕ) where
  -- The log after a frame was written.
  abbrev pub extended : Log → List Record → Log
  extended l t = record l { file = l.file ++ encode checksum t; dirty = true }

  pub write-good :
      (t : List Record) (l : Log)
      → t ≢ []
      → l.replayed ≡ true
      → l.has_file ≡ true
      → write checksum good_write good_sync t l ≡ (extended l t, none)
  unfolding write append_frame
  write-good [] l some_record new opened = absurd (some_record refl)
  write-good (r ∷ rs) l some_record new opened =
      let done = λ (p : Log × Option Code). p ≡ (extended l (r ∷ rs), none) in
      by_test done (not l.replayed) _ _ (λ e. absurd (not_refused l.replayed new e))
        (λ e.
          by_test done (not l.has_file) _ _ (λ f. absurd (not_refused l.has_file opened f))
            (λ f. by_test done (l.fsync && false) _ _ (λ g. absurd (never l.fsync g)) (λ g. refl)))

module _ (checksum : Bytes → ℕ) (parse_jsonb : Bytes → Option Value)
    (word : (b : Bytes) → checksum b < 2 ^ 32) {S : Type 0} (fn : S → List Record → Result S)
    (s : S) where
  -- A transaction whose encoding is longer than a gibibyte is lost, where the log stays below 4 GiB. Write
  -- reports success, on a disk on which nothing fails, and the replay after the next restart hands over
  -- the transactions before it and cuts it off the log.
  pub oversized_lost :
      (acked : List (List Record)) (t : List Record) (l : Log)
      → l.replayed ≡ true
      → l.has_file ≡ true
      → l.file ≡ magic ++ frames checksum acked
      → All (IsTransaction parse_jsonb) acked
      → t ≢ []
      → 2 ^ 30 < length (body t)
      → length (frames checksum acked) + length (body t) + 8 < 2 ^ 32
      → let l' = extended checksum l t in
        (write checksum good_write good_sync t l ≡ (l', none))
        × (replay checksum parse_jsonb fn s (reopened checksum parse_jsonb l')
            ≡ Replayed checksum (reopened checksum parse_jsonb l') acked (replay_all fn s acked))
  oversized_lost acked t l new opened e hs some_record big room =
      let enc = encode checksum t in
      let tail : IsTail checksum parse_jsonb enc = inr (
        ap (next_frame checksum parse_jsonb) (sym (append-nil enc))
        ∙ next_frame-oversized checksum parse_jsonb word t [] big (omega arith)) in
      (
        write-good checksum t l some_record new opened,
        replay_recovers checksum parse_jsonb fn word s
            (reopened checksum parse_jsonb (extended checksum l t)) acked enc refl
            (ap (λ b. b ++ enc) e ∙ append_assoc magic (frames checksum acked) enc) hs tail
            (omega (arith, length-encode checksum t)),
      )

  -- Where the bytes of the log behind the header of its first frame are, modulo 2^32, fewer than the body
  -- of that frame, which takes a log of 4 GiB or more, replay hands over nothing and empties the log.
  pub far_lost :
      (t : List Record) (rest : Bytes) (l : Log)
      → l.replayed ≡ false
      → l.file ≡ magic ++ (encode checksum t ++ rest)
      → IsTransaction parse_jsonb t
      → (length (body t) + length rest) % 2 ^ 32 < length (body t)
      → (replay checksum parse_jsonb fn s l).1 ≡ ok s
        × ((replay checksum parse_jsonb fn s l).0.file ≡ magic)
  unfolding frames
  far_lost t rest l new e h far =
      let tail : IsTail checksum parse_jsonb (encode checksum t ++ rest) =
        inr (next_frame-far checksum parse_jsonb word t rest h.short far) in
      let r = replay_tail checksum parse_jsonb fn s l (encode checksum t ++ rest) new e tail in
      (ap (λ p. p.1) r, ap (λ p. p.0.file) r)
