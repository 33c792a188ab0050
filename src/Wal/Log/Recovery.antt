-- ===== src/Wal/Log/Recovery.antt =====
-- Writes that may fail, and what they leave in the log (internal/wal/log.go).
use native.Mathlib.Omega.{arith}
use lightsql.Common.{
  ℕ, ◌^◌, ◌<◌, Bool, true, false, ◌&&◌, not, List, [], ◌∷◌, ◌++◌, Option, none, some, ltb, ◌≡◌, ◌≢◌,
  inl, inr, refl, ap, sym, ◌∙◌, append_assoc, append-nil, if◌then◌else◌, Bool-cases, by_test,
  ltb→lt, Bytes, length, take, Code, internal_error,
}
use lightsql.Types.Value.{Value}
use lightsql.Wal.Record.{Record}
use lightsql.Wal.Frame.{encode}
use lightsql.Wal.Frame.RoundTrip.{IsTransaction, IsTail}
use lightsql.Wal.Frame.Torn.{take-encode-IsTail, take-all}
use lightsql.Wal.Log.{Log, magic, write, append_frame}
use lightsql.Wal.Log.Replay.{frames}

-- What the operating system promises of a write: some prefix of the bytes reaches the file, and all of
-- them if it reports success.
pub record IsDisk (disk_write : Bytes → Bytes × Bool) : Type 0 where
  pub prefix : (b : Bytes) → (n : ℕ) × ((disk_write b).0 ≡ take n b)
  pub whole : (b : Bytes) → (disk_write b).1 ≡ true → (disk_write b).0 ≡ b

module _ (checksum : Bytes → ℕ) (parse_jsonb : Bytes → Option Value) where
  -- A replayed log to which the transactions `acked` have been written with success: it holds their
  -- frames. After a failed write, which closes the file, it may also hold a part of the failed
  -- transaction, or all of it.
  pub data IsLogOf (acked : List (List Record)) (l : Log) : Type 0 where
    is_whole : l.file ≡ magic ++ frames checksum acked → IsLogOf acked l
    is_torn :
        (tail : Bytes)
        → l.has_file ≡ false
        → IsTail checksum parse_jsonb tail
        → l.file ≡ magic ++ (frames checksum acked ++ tail)
        → IsLogOf acked l
    is_unconfirmed :
        (t : List Record)
        → l.has_file ≡ false
        → IsTransaction parse_jsonb t
        → l.file ≡ magic ++ (frames checksum acked ++ encode checksum t)
        → IsLogOf acked l

  -- The transactions that were written with success after one more write.
  abbrev pub acked_after : List (List Record) → List Record → Option Code → List (List Record)
  acked_after acked t none = acked ++ t ∷ []
  acked_after acked t (some c) = acked

  pub frames-append :
      (ts : List (List Record)) (t : List Record)
      → frames checksum (ts ++ t ∷ []) ≡ frames checksum ts ++ encode checksum t
  unfolding frames
  frames-append [] t = append-nil (encode checksum t)
  frames-append (u ∷ ts) t =
      ap (λ b. encode checksum u ++ b) (frames-append ts t)
      ∙ sym (append_assoc (encode checksum u) (frames checksum ts) (encode checksum t))

  module _ (word : (b : Bytes) → checksum b < 2 ^ 32) (disk_write : Bytes → Bytes × Bool)
      (disk_sync : Bytes → Bool) (disk : IsDisk disk_write) where
    -- What is in the file after a frame was appended to a whole log.
    data Appended (t : List Record) (l : Log) : Log × Option Code → Type 0 where
      untouched : l.has_file ≡ false → Appended t l (l, some internal_error)
      added : (l' : Log) → l'.file ≡ l.file ++ encode checksum t → Appended t l (l', none)
      failed :
          (l' : Log) (n : ℕ)
          → l'.has_file ≡ false
          → l'.file ≡ l.file ++ take n (encode checksum t)
          → Appended t l (l', some internal_error)

    not_true : (b : Bool) → not b ≡ true → b ≡ false
    not_true b h = ground arith

    not_false : (b : Bool) → not b ≡ false → b ≡ true
    not_false b h = ground arith

    append_frame-Appended :
        (t : List Record) (l : Log)
        → Appended t l (append_frame checksum disk_write disk_sync (encode checksum t) l)
    unfolding append_frame
    append_frame-Appended t l =
        let frame = encode checksum t in
        let reached = (disk_write frame).0 in
        let part = disk.prefix frame in
        let grown = l.file ++ reached in
        by_test (Appended t l) (not l.has_file) _ _
          (λ closed. untouched (not_true l.has_file closed))
          (λ opened.
            by_test (Appended t l) (not (disk_write frame).1) _ _
              (λ lost. failed _ part.0 refl (ap (λ b. l.file ++ b) part.1))
              (λ fine.
                by_test (Appended t l) (l.fsync && not (disk_sync grown)) _ _
                  (λ unflushed. failed _ part.0 refl (ap (λ b. l.file ++ b) part.1))
                  (λ flushed. added _ (
                    ap (λ b. l.file ++ b)
                      (disk.whole frame (not_false (disk_write frame).1 fine))))))

    grown :
        (acked : List (List Record)) (l : Log) (rest : Bytes) (b : Bytes)
        → l.file ≡ magic ++ frames checksum acked
        → b ≡ l.file ++ rest
        → b ≡ magic ++ (frames checksum acked ++ rest)
    grown acked l rest b e at =
        at ∙ ap (λ f. f ++ rest) e ∙ append_assoc magic (frames checksum acked) rest

    Appended-IsLogOf :
        (acked : List (List Record)) (t : List Record) (l : Log) (r : Log × Option Code)
        → IsTransaction parse_jsonb t
        → l.file ≡ magic ++ frames checksum acked
        → Appended t l r
        → IsLogOf (acked_after acked t r.1) r.0
    Appended-IsLogOf acked t l r h e (untouched closed) = is_whole e
    Appended-IsLogOf acked t l r h e (added l' at) = is_whole (
        grown acked l (encode checksum t) l'.file e at
        ∙ ap (λ b. magic ++ b) (sym (frames-append acked t)))
    Appended-IsLogOf acked t l r h e (failed l' n closed at) =
        let frame = encode checksum t in
        elim (Bool-cases (ltb n (length frame))) [
          | inl cut ↦
              is_torn (take n frame) closed
                (take-encode-IsTail checksum parse_jsonb word t n h (ltb→lt n (length frame) cut))
                (grown acked l (take n frame) l'.file e at)
          | inr full ↦
              let all : take n frame ≡ frame = take-all frame n (ground arith) in
              is_unconfirmed t closed h
                (grown acked l frame l'.file e (at ∙ ap (λ b. l.file ++ b) all))
        ]

    append_frame-closed :
        (frame : Bytes) (l : Log)
        → l.has_file ≡ false
        → append_frame checksum disk_write disk_sync frame l ≡ (l, some internal_error)
    unfolding append_frame
    append_frame-closed frame l closed =
        by_test (λ r. r ≡ (l, some internal_error)) (not l.has_file) _ _ (λ e. refl)
          (λ opened. absurd (true_or_false l.has_file (not_false l.has_file opened) closed))
      where
        true_or_false : (b : Bool) → b ≡ true → b ≢ false
        true_or_false b h k = cc

    -- On a closed file nothing is written.
    write-closed :
        (t : List Record) (l : Log)
        → t ≢ []
        → l.has_file ≡ false
        → write checksum disk_write disk_sync t l ≡ (l, some internal_error)
    unfolding write
    write-closed [] l some_record closed = absurd (some_record refl)
    write-closed (r ∷ rs) l some_record closed =
        by_test (λ r. r ≡ (l, some internal_error)) (not l.replayed) _ _ (λ e. refl)
          (λ e. append_frame-closed (encode checksum (r ∷ rs)) l closed)

    write-open :
        (t : List Record) (l : Log)
        → t ≢ []
        → l.replayed ≡ true
        → write checksum disk_write disk_sync t l
          ≡ append_frame checksum disk_write disk_sync (encode checksum t) l
    unfolding write
    write-open [] l some_record h = absurd (some_record refl)
    write-open (r ∷ rs) l some_record h =
        ap
          (λ b.
            if not b
            then (l, some internal_error)
            else append_frame checksum disk_write disk_sync (encode checksum (r ∷ rs)) l)
          h

    -- Where fsync is on, the last call of Sync before a success saw the whole file, and succeeded.
    append_frame-flushed :
        (frame : Bytes) (l : Log)
        → l.fsync ≡ true
        → let r = append_frame checksum disk_write disk_sync frame l in
          r.1 ≡ none → disk_sync r.0.file ≡ true
    unfolding append_frame
    append_frame-flushed frame l on =
        let Flushed : Log × Option Code → Type 0 = λ r. r.1 ≡ none → disk_sync r.0.file ≡ true in
        let grown = l.file ++ (disk_write frame).0 in
        by_test Flushed (not l.has_file) _ _ (λ _ e. ground arith)
          (λ _.
            by_test Flushed (not (disk_write frame).1) _ _ (λ _ e. ground arith)
              (λ _.
                by_test Flushed (l.fsync && not (disk_sync grown)) _ _ (λ _ e. ground arith)
                  (λ flushed e. synced l.fsync (disk_sync grown) on flushed)))
      where
        synced : (b c : Bool) → b ≡ true → b && not c ≡ false → c ≡ true
        synced b c h k = ground arith

    pub write-flushed :
        (t : List Record) (l : Log)
        → t ≢ []
        → l.replayed ≡ true
        → l.fsync ≡ true
        → let r = write checksum disk_write disk_sync t l in r.1 ≡ none → disk_sync r.0.file ≡ true
    write-flushed t l some_record new on =
        rw (write-open t l some_record new) (append_frame-flushed (encode checksum t) l on)

    -- What has been written with success stays in the log, whatever write comes next and however it ends;
    -- the records of that write can be encoded, in at most 1 GiB.
    pub write-IsLogOf :
        (acked : List (List Record)) (t : List Record) (l : Log)
        → IsTransaction parse_jsonb t
        → l.replayed ≡ true
        → IsLogOf acked l
        → let r = write checksum disk_write disk_sync t l in IsLogOf (acked_after acked t r.1) r.0
    write-IsLogOf acked t l h new (is_whole e) =
        rw (write-open t l h.some_record new)
          (Appended-IsLogOf acked t l _ h e (append_frame-Appended t l))
    write-IsLogOf acked t l h new (is_torn tail closed ht e) =
        rw (write-closed t l h.some_record closed) (is_torn tail closed ht e)
    write-IsLogOf acked t l h new (is_unconfirmed u closed hu e) =
        rw (write-closed t l h.some_record closed) (is_unconfirmed u closed hu e)
