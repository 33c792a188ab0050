-- ===== src/Wal/Frame/RoundTrip.antt =====
-- A frame that was written whole is read back; one that was cut short is refused (internal/wal/log.go).
use native.Mathlib.Omega.{arith}
use lightsql.Common.{append-nil}
use lightsql.Wal.Frame.{read_header}
use lightsql.Common.{
  ℕ, zero, suc, ◌+◌, ◌%◌, ◌^◌, ◌≤◌, ◌<◌, false, ◌||◌, List, [], ◌∷◌, ◌++◌, Option, ltb, ◌==◌, ◌≡◌,
  ◌≢◌, ◌⊎◌, refl, ap, sym, ◌∙◌, All, append_assoc, ==_refl, length-append, take-append, drop-append,
  Bytes, length, ok, err, data_corrupted,
}
use lightsql.Common.Varint.{le_bytes, le_word-le_bytes}
use lightsql.Types.Value.{Value}
use lightsql.Types.Codec.RoundTrip.{take_uvarint-append_uvarint}
use lightsql.Wal.Record.{Record}
use lightsql.Wal.Codec.{max_len, append_record}
use lightsql.Wal.Codec.RoundTrip.{IsLoggable, decode_record-append_record}
use lightsql.Wal.Frame.{
  append_records, body, encode, decode_records, exactly, decode_body, open_frame, next_frame,
}

-- A transaction that the log accepts: some records, each of a loggable size, and so is the whole.
pub record IsTransaction (parse_jsonb : Bytes → Option Value) (recs : List Record) : Type 0 where
  pub some_record : recs ≢ []
  pub few : length recs ≤ 2 ^ 30
  pub loggable : All (IsLoggable parse_jsonb) recs
  pub short : length (body recs) ≤ 2 ^ 30

module _ (parse_jsonb : Bytes → Option Value) where
  decode_records-append_records :
      (rs : List Record) (rest : Bytes)
      → All (IsLoggable parse_jsonb) rs
      → decode_records parse_jsonb (length rs) (append_records rs ++ rest) ≡ ok (rs, rest)
  unfolding decode_records append_records
  decode_records-append_records [] rest h = refl
  decode_records-append_records (r ∷ rs) rest h =
      rw (append_assoc (append_record r) (append_records rs) rest) (
        rw (decode_record-append_record parse_jsonb r (append_records rs ++ rest) h.0)
          (rw (decode_records-append_records rs rest h.1) refl))

  records_back :
      (rs : List Record)
      → All (IsLoggable parse_jsonb) rs
      → decode_records parse_jsonb (length rs) (append_records rs) ≡ ok (rs, [])
  records_back rs h =
      ap (decode_records parse_jsonb (length rs)) (sym (append-nil (append_records rs)))
      ∙ decode_records-append_records rs [] h

  decode_body-body :
      (rs : List Record) → IsTransaction parse_jsonb rs → decode_body parse_jsonb (body rs) ≡ ok rs
  unfolding decode_body body exactly
  decode_body-body rs h =
      rw
        (
          decode_body,
          take_uvarint-append_uvarint (length rs) (append_records rs) (omega (arith, h.few)),
        )
        (rw (count_fine rs h.some_record h.few, records_back rs h.loggable) refl)
    where
      count_fine :
          (rs : List Record)
          → rs ≢ []
          → length rs ≤ 2 ^ 30
          → length rs == 0 || ltb max_len (length rs) ≡ false
      count_fine [] n h = absurd (n refl)
      count_fine (r ∷ rs) n h = ground arith

-- What is left of the log when a transaction that was being written is lost: nothing, or something
-- that is not a frame.
abbrev pub IsTail : (checksum : Bytes → ℕ) (parse_jsonb : Bytes → Option Value) → Bytes → Type 0
IsTail checksum parse_jsonb t = (t ≡ []) ⊎ (next_frame checksum parse_jsonb t ≡ err data_corrupted)

module _ (checksum : Bytes → ℕ) (parse_jsonb : Bytes → Option Value) where
  pub next_frame-read_header :
      (src : Bytes)
      → src ≢ []
      → next_frame checksum parse_jsonb src ≡ read_header checksum parse_jsonb src
  unfolding next_frame
  next_frame-read_header [] h = absurd (h refl)
  next_frame-read_header (b ∷ src) h = refl

  pub next_frame-header :
      (n c : ℕ) (src : Bytes)
      → n < 2 ^ 32
      → c < 2 ^ 32
      → next_frame checksum parse_jsonb (le_bytes 4 n ++ (le_bytes 4 c ++ src))
        ≡ open_frame checksum parse_jsonb n c src
  unfolding read_header
  next_frame-header n c src hn hc =
      next_frame-read_header (le_bytes 4 n ++ (le_bytes 4 c ++ src)) (unfold le_bytes in λ e. cc)
      ∙ rw (read_header, le_word-le_bytes 4 n (le_bytes 4 c ++ src) hn)
          (rw (le_word-le_bytes 4 c src hc) refl)

  mod-lt_id : (n : ℕ) → n < 2 ^ 32 → n % 2 ^ 32 ≡ n
  mod-lt_id n h = omega arith

  pub open_frame-whole :
      (b rest : Bytes) (recs : List Record)
      → length b ≤ 2 ^ 30
      → length b + length rest < 2 ^ 32
      → decode_body parse_jsonb b ≡ ok recs
      → open_frame checksum parse_jsonb (length b) (checksum b) (b ++ rest) ≡ ok (recs, rest)
  unfolding open_frame
  open_frame-whole b rest recs h room e =
      rw
        (
          open_frame,
          length-append b rest,
          take-append b rest,
          drop-append b rest,
          ==_refl (checksum b),
          e,
        )
        (ground (arith, mod-lt_id (length b + length rest)))

  pub encode_first :
      (recs : List Record) (rest : Bytes)
      → encode checksum recs ++ rest
        ≡ le_bytes 4 (length (body recs))
          ++ (le_bytes 4 (checksum (body recs)) ++ (body recs ++ rest))
  unfolding encode
  encode_first recs rest =
      let header = le_bytes 4 (length (body recs)) in
      let sum = le_bytes 4 (checksum (body recs)) in
      append_assoc header (sum ++ body recs) rest
      ∙ ap (λ t. header ++ t) (append_assoc sum (body recs) rest)

  module _ (word : (s : Bytes) → checksum s < 2 ^ 32) where
    pub next_frame-open_frame :
        (recs : List Record) (rest : Bytes)
        → length (body recs) < 2 ^ 32
        → next_frame checksum parse_jsonb (encode checksum recs ++ rest)
          ≡ open_frame checksum parse_jsonb
              (length (body recs))
              (checksum (body recs))
              (body recs ++ rest)
    next_frame-open_frame recs rest h =
        ap (next_frame checksum parse_jsonb) (encode_first recs rest)
        ∙ next_frame-header (length (body recs)) (checksum (body recs)) (body recs ++ rest) h
            (word (body recs))

    -- A transaction that was written is read back, and what follows it in the log is left, as long as the
    -- log is below 4 GiB.
    pub next_frame-encode :
        (recs : List Record) (rest : Bytes)
        → IsTransaction parse_jsonb recs
        → length (body recs) + length rest < 2 ^ 32
        → next_frame checksum parse_jsonb (encode checksum recs ++ rest) ≡ ok (recs, rest)
    next_frame-encode recs rest h room =
        next_frame-open_frame recs rest (omega (arith, h.short))
        ∙ open_frame-whole (body recs) rest recs h.short room (decode_body-body parse_jsonb recs h)

    -- A frame whose body is longer than a gibibyte is refused, although `encode` writes it.
    pub next_frame-oversized :
        (recs : List Record) (rest : Bytes)
        → 2 ^ 30 < length (body recs)
        → length (body recs) < 2 ^ 32
        → next_frame checksum parse_jsonb (encode checksum recs ++ rest) ≡ err data_corrupted
    next_frame-oversized recs rest big small =
        next_frame-open_frame recs rest small ∙ unfold open_frame in ground arith

    -- A whole frame is refused where the number of bytes from its body to the end of the log is, modulo
    -- 2^32, below the length of the body: in a log of 4 GiB or more.
    pub next_frame-far :
        (recs : List Record) (rest : Bytes)
        → length (body recs) ≤ 2 ^ 30
        → (length (body recs) + length rest) % 2 ^ 32 < length (body recs)
        → next_frame checksum parse_jsonb (encode checksum recs ++ rest) ≡ err data_corrupted
    next_frame-far recs rest short far =
        next_frame-open_frame recs rest (omega arith)
        ∙ unfold open_frame in ground (arith, length-append (body recs) rest)

pub length-le_bytes : (k n : ℕ) → length (le_bytes k n) ≡ k
unfolding le_bytes
length-le_bytes zero n = refl
length-le_bytes (suc k) n = omega (arith, length-le_bytes k)

module _ (checksum : Bytes → ℕ) where
  pub length-encode : (t : List Record) → length (encode checksum t) ≡ 8 + length (body t)
  unfolding encode
  length-encode t =
      let b = body t in
      omega (
        arith,
        length-append (le_bytes 4 (length b)) (le_bytes 4 (checksum b) ++ b),
        length-append (le_bytes 4 (checksum b)) b,
        length-le_bytes 4 (length b),
        length-le_bytes 4 (checksum b),
      )
