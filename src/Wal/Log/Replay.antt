-- ===== src/Wal/Log/Replay.antt =====
-- What Replay finds in a log of whole frames with a tail that is not one (internal/wal/log.go).
use native.Mathlib.Omega.{arith}
use lightsql.Common.{
  ℕ, zero, suc, ◌+◌, ◌-◌, ◌^◌, ◌≤◌, ◌<◌, true, false, List, [], ◌∷◌, ◌++◌, Option, ◌≡◌, inl, inr,
  refl, ap, sym, ◌∙◌, All, append_assoc, length-append, take-append, Bytes, length, take, drop,
  Result, ok, err, ◌>>=◌, bind_ext, bind_assoc,
}
use lightsql.Types.Value.{Value}
use lightsql.Wal.Record.{Record}
use lightsql.Wal.Frame.{encode, next_frame}
use lightsql.Wal.Frame.RoundTrip.{IsTransaction, IsTail, next_frame-encode, length-encode}
use lightsql.Wal.Log.{Log, magic, replay_frames, finish_replay, replay}

module _ (checksum : Bytes → ℕ) where
  -- The whole frames of some transactions, in order.
  unfoldable pub frames : List (List Record) → Bytes
  frames [] = []
  frames (t ∷ ts) = encode checksum t ++ frames ts

module _ {S : Type 0} (fn : S → List Record → Result S) where
  -- `fn` on every transaction, in order, until it fails.
  unfoldable pub replay_all : S → List (List Record) → Result S
  replay_all s [] = ok s
  replay_all s (t ∷ ts) = fn s t >>= λ s'. replay_all s' ts

module _ (checksum : Bytes → ℕ) (parse_jsonb : Bytes → Option Value) {S : Type 0}
    (fn : S → List Record → Result S) where
  replay_stop :
      (fuel : ℕ) (s : S) (tail : Bytes) (good : ℕ)
      → IsTail checksum parse_jsonb tail
      → replay_frames checksum parse_jsonb fn (suc fuel) s tail good ≡ ok (s, good)
  unfolding replay_frames next_frame
  replay_stop fuel s tail good (inl e) = rw e refl
  replay_stop fuel s tail good (inr e) = rw (replay_frames, e) refl

  replay_step :
      (fuel : ℕ) (s : S) (r : Record) (rs : List Record) (rest remaining : Bytes) (good : ℕ)
      → next_frame checksum parse_jsonb rest ≡ ok (r ∷ rs, remaining)
      → replay_frames checksum parse_jsonb fn (suc fuel) s rest good
        ≡ fn s (r ∷ rs) >>= λ s'.
            replay_frames checksum parse_jsonb fn fuel s' remaining
              (good + (length rest - length remaining))
  unfolding replay_frames
  replay_step fuel s r rs rest remaining good e = rw (replay_frames, e) refl

  module _ (word : (b : Bytes) → checksum b < 2 ^ 32) where
    -- One round over a whole frame.
    replay_whole :
        (fuel : ℕ) (s : S) (t : List Record) (rest : Bytes) (good : ℕ)
        → IsTransaction parse_jsonb t
        → length (encode checksum t) + length rest < 2 ^ 32
        → replay_frames checksum parse_jsonb fn (suc fuel) s (encode checksum t ++ rest) good
          ≡ fn s t >>= λ s'.
              replay_frames checksum parse_jsonb fn fuel s' rest (good + length (encode checksum t))
    replay_whole fuel s [] rest good h room = absurd (h.some_record refl)
    replay_whole fuel s (r ∷ rs) rest good h room =
        let enc = encode checksum (r ∷ rs) in
        let size : length (enc ++ rest) - length rest ≡ length enc =
          omega (arith, length-append enc rest) in
        replay_step fuel s r rs (enc ++ rest) rest good (
          next_frame-encode checksum parse_jsonb word (r ∷ rs) rest h
            (omega (arith, length-encode checksum (r ∷ rs))))
        ∙ ap
            (λ (n : ℕ).
              fn s (r ∷ rs) >>= λ s'. replay_frames checksum parse_jsonb fn fuel s' rest (good + n))
            size

    -- The loop hands every whole transaction over and stops at the tail.
    pub replay_frames-frames :
        (ts : List (List Record)) (fuel : ℕ) (s : S) (tail : Bytes) (good : ℕ)
        → All (IsTransaction parse_jsonb) ts
        → IsTail checksum parse_jsonb tail
        → length (frames checksum ts) + length tail < 2 ^ 32
        → length ts < fuel
        → replay_frames checksum parse_jsonb fn fuel s (frames checksum ts ++ tail) good
          ≡ replay_all fn s ts >>= λ s'. ok (s', good + length (frames checksum ts))
    unfolding frames replay_all
    replay_frames-frames ts zero s tail good hs ht room enough = absurd (omega (arith, enough))
    replay_frames-frames [] (suc fuel) s tail good hs ht room enough =
        replay_stop fuel s tail good ht ∙ ap (λ (n : ℕ). ok (s, n)) (omega arith)
    replay_frames-frames (t ∷ ts) (suc fuel) s tail good hs ht room enough =
        let enc = encode checksum t in
        let more = frames checksum ts in
        let joined = length-append enc more in
        ap (λ b. replay_frames checksum parse_jsonb fn (suc fuel) s b good)
          (append_assoc enc more tail)
        ∙ replay_whole fuel s t (more ++ tail) good hs.0
            (omega (arith, joined, length-append more tail))
        ∙ bind_ext (fn s t)
            (λ s'. replay_frames checksum parse_jsonb fn fuel s' (more ++ tail) (good + length enc))
            (λ s'. replay_all fn s' ts >>= λ s''. ok (s'', good + length (enc ++ more)))
            (λ s'.
              replay_frames-frames ts fuel s' tail (good + length enc) hs.1 ht
                (omega (arith, joined)) (omega arith)
              ∙ ap (λ (n : ℕ). replay_all fn s' ts >>= λ s''. ok (s'', n)) (omega (arith, joined)))
        ∙ sym (
            bind_assoc (fn s t) (λ s'. replay_all fn s' ts)
              (λ s''. ok (s'', good + length (enc ++ more))))

-- What `replay` makes of a log whose whole frames are those of `ts`: the state that `fn` builds from
-- them, or its error; and without an error the log is cut to these frames.
abbrev pub Replayed :
    (checksum : Bytes → ℕ) {S : Type 0} → Log → List (List Record) → Result S → Log × Result S
Replayed checksum l ts (err c) = (l, err c)
Replayed checksum l ts (ok s) =
    (record l { file = magic ++ frames checksum ts; replayed = true }, ok s)

module _ (checksum : Bytes → ℕ) where
  length-frames : (ts : List (List Record)) → length ts ≤ length (frames checksum ts)
  unfolding frames
  length-frames [] = omega arith
  length-frames (t ∷ ts) = omega (
    arith,
    length-frames ts,
    length-append (encode checksum t) (frames checksum ts),
    length-encode checksum t,
  )

  all_frames :
      (ts : List (List Record))
      → 8 + length (frames checksum ts) ≡ length (magic ++ frames checksum ts)
  all_frames ts = omega (arith, length-append magic (frames checksum ts))

  cut_back :
      (ts : List (List Record)) (tail : Bytes)
      → take (8 + length (frames checksum ts)) (magic ++ (frames checksum ts ++ tail))
        ≡ magic ++ frames checksum ts
  cut_back ts tail =
      let whole = magic ++ frames checksum ts in
      ap (λ b. take (8 + length (frames checksum ts)) b)
        (sym (append_assoc magic (frames checksum ts) tail))
      ∙ ap (λ (n : ℕ). take n (whole ++ tail)) (all_frames ts)
      ∙ take-append whole tail

module _ (checksum : Bytes → ℕ) (parse_jsonb : Bytes → Option Value) {S : Type 0}
    (fn : S → List Record → Result S) where
  replay_unfolded :
      (s : S) (l : Log)
      → l.replayed ≡ false
      → replay checksum parse_jsonb fn s l
        ≡ finish_replay checksum parse_jsonb fn l (
            replay_frames checksum parse_jsonb fn
              (suc (length (drop 8 l.file)))
              s
              (drop 8 l.file)
              8)
  unfolding replay
  replay_unfolded s l h = rw (replay, h) refl

  finish_replay-frames :
      (l : Log) (ts : List (List Record)) (tail : Bytes) (r : Result S)
      → l.file ≡ magic ++ (frames checksum ts ++ tail)
      → finish_replay checksum parse_jsonb fn l (r >>= λ s. ok (s, 8 + length (frames checksum ts)))
        ≡ Replayed checksum l ts r
  unfolding finish_replay
  finish_replay-frames l ts tail (err c) e = refl
  finish_replay-frames l ts tail (ok s) e =
      ap (λ (b : Bytes). (record l { file = b; replayed = true }, ok s))
        (ap (take (8 + length (frames checksum ts))) e ∙ cut_back checksum ts tail)

  -- Recovery is all or nothing. A log whose whole frames hold some transactions, and behind them nothing
  -- or something that is not a frame, is replayed as these transactions, in order, and cut to them. The
  -- log is below 4 GiB.
  pub replay_recovers :
      (word : (b : Bytes) → checksum b < 2 ^ 32) (s : S) (l : Log) (ts : List (List Record))
      (tail : Bytes)
      → l.replayed ≡ false
      → l.file ≡ magic ++ (frames checksum ts ++ tail)
      → All (IsTransaction parse_jsonb) ts
      → IsTail checksum parse_jsonb tail
      → length (frames checksum ts) + length tail < 2 ^ 32
      → replay checksum parse_jsonb fn s l ≡ Replayed checksum l ts (replay_all fn s ts)
  replay_recovers word s l ts tail new e hs ht room =
      let rest = frames checksum ts ++ tail in
      let enough : length ts < suc (length rest) =
        omega (arith, length-frames checksum ts, length-append (frames checksum ts) tail) in
      replay_unfolded s l new
      ∙ ap
          (λ b.
            finish_replay checksum parse_jsonb fn l
              (replay_frames checksum parse_jsonb fn (suc (length b)) s b 8))
          (ap (drop 8) e)
      ∙ ap (finish_replay checksum parse_jsonb fn l) (
          replay_frames-frames checksum parse_jsonb fn word ts (suc (length rest)) s tail 8 hs ht
            room enough)
      ∙ finish_replay-frames l ts tail (replay_all fn s ts) e

  -- A log that starts with something that is not a frame is replayed as an empty one, however long.
  pub replay_tail :
      (s : S) (l : Log) (tail : Bytes)
      → l.replayed ≡ false
      → l.file ≡ magic ++ tail
      → IsTail checksum parse_jsonb tail
      → replay checksum parse_jsonb fn s l ≡ Replayed checksum l [] (ok s)
  unfolding frames
  replay_tail s l tail new e ht =
      replay_unfolded s l new
      ∙ ap
          (λ b.
            finish_replay checksum parse_jsonb fn l
              (replay_frames checksum parse_jsonb fn (suc (length b)) s b 8))
          (ap (drop 8) e)
      ∙ ap (finish_replay checksum parse_jsonb fn l)
          (replay_stop checksum parse_jsonb fn (length tail) s tail 8 ht)
      ∙ finish_replay-frames l [] tail (ok s) e
