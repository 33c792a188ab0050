-- ===== src/Wal/Tests.antt =====
-- The log at concrete inputs.
use native.Mathlib.Omega.{arith}
use lightsql.Common.{
  All, sym, ℕ, zero, suc, ◌+◌, ◌-◌, ◌^◌, ◌<◌, ◌≡◌, ◌≢◌, refl, ap, Bool, true, false, List, [], ◌∷◌,
  ◌++◌, Option, none, Bytes, length, length-append, ◌∙◌, take, Result, ok,
}
use lightsql.Common.Varint.{append_uvarint, le_bytes}
use lightsql.Types.Value.{Value, int}
use lightsql.Types.Codec.{append_text, append_value, layout}
use lightsql.Types.Codec.RoundTrip.{IsStored, is_words}
use lightsql.Wal.Record.{Record, insert_record, delete_record, ddl_record}
use lightsql.Wal.Codec.{append_record}
use lightsql.Wal.Codec.RoundTrip.{IsLoggable, is_insert, is_delete}
use lightsql.Wal.Frame.{body, append_records, encode}
use lightsql.Wal.Frame.RoundTrip.{IsTransaction, length-encode}
use lightsql.Wal.Frame.Torn.{length-take, take-all}
use lightsql.Wal.Log.{Log, magic, replay, write}
use lightsql.Wal.Log.Replay.{frames, replay_all, Replayed}
use lightsql.Wal.Log.Recovery.{IsDisk, IsLogOf, is_whole, acked_after, write-IsLogOf}
use lightsql.Wal.Log.Crash.{reopened, Recovers, crash-Recovers}
use lightsql.Wal.Checkpoint.{Directory, Call, link, write_checkpoint, checkpoint}
use lightsql.Wal.Checkpoint.Safety.{OldOrNew, checkpoint-OldOrNew}
use lightsql.Wal.Log.Limits.{good_write, good_sync, extended, write-good, oversized_lost, far_lost}

-- A checksum and a JSON parser, in place of those of package hash/crc32 and json.go.
abbrev pub sum : Bytes → ℕ
sum b = 7

pub sum-is_word : (b : Bytes) → sum b < 2 ^ 32
sum-is_word b = omega arith

abbrev pub no_json : Bytes → Option Value
no_json s = none

abbrev pub answer : Value
answer = record { k = int; scale = 0; n = 42; s = [] }

answer-IsStored : IsStored no_json answer
unfolding layout
answer-IsStored = is_words int 42 refl (omega arith)

abbrev pub row_added : Record
row_added = insert_record (116 ∷ []) 1 (answer ∷ [])

pub row_added-IsLoggable : IsLoggable no_json row_added
row_added-IsLoggable =
    is_insert (116 ∷ []) 1 (answer ∷ []) (omega arith) (omega arith) (omega arith)
      (answer-IsStored, tt)

abbrev txn : List Record
txn = row_added ∷ delete_record (116 ∷ []) 1 ∷ []

length-txn : length (body txn) ≡ 19
unfolding body append_records append_record append_uvarint append_text append_value le_bytes
    insert_record delete_record
length-txn = refl

txn-IsTransaction : IsTransaction no_json txn
txn-IsTransaction = record {
  some_record = λ e. cc;
  few = omega arith;
  loggable = (row_added-IsLoggable, (is_delete (116 ∷ []) 1 (omega arith) (omega arith), tt));
  short = omega (arith, length-txn);
}

-- The records are counted.
abbrev count : ℕ → List Record → Result ℕ
count n recs = ok (n + length recs)

abbrev one_written : Log
one_written = record {
  file = magic ++ frames sum (txn ∷ []);
  fsync = true;
  has_file = true;
  replayed = true;
  dirty = true;
}

length-one_written : length (frames sum (txn ∷ [])) ≡ 27
unfolding frames
length-one_written =
    omega (arith, length-append (encode sum txn) [], length-encode sum txn, length-txn)

-- After a crash in the middle of a second transaction.
abbrev half : Bytes
half = take 11 (encode sum txn)

abbrev crashed : Log
crashed = record {
  file = magic ++ (frames sum (txn ∷ []) ++ half);
  fsync = true;
  has_file = true;
  replayed = false;
  dirty = false;
}

length-half : length half ≡ 11
length-half = length-take 11 (encode sum txn) (omega (arith, length-encode sum txn, length-txn))

-- A disk that is full after eleven bytes.
abbrev full_write : Bytes → Bytes × Bool
full_write b = (take 11 b, false)

full_write-IsDisk : IsDisk full_write
full_write-IsDisk = record { prefix = λ b. (11, refl); whole = λ b e. absurd (no_success e) }
  where
    no_success : false ≢ true
    no_success e = cc

write-IsLogOf_example :
    let r = write sum full_write good_sync txn one_written in
    IsLogOf sum no_json (acked_after sum no_json (txn ∷ []) txn r.1) r.0
write-IsLogOf_example =
    write-IsLogOf sum no_json sum-is_word full_write good_sync full_write-IsDisk (txn ∷ []) txn
      one_written txn-IsTransaction refl (is_whole refl)

good_write-IsDisk : IsDisk good_write
good_write-IsDisk = record {
  prefix = λ b. (length b, sym (take-all b (length b) (omega arith)));
  whole = λ b e. refl;
}

two_written : write sum good_write good_sync txn one_written ≡ (extended sum one_written txn, none)
two_written = write-good sum txn one_written (λ e. cc) refl refl

length-two_written : length (extended sum one_written txn).file < 2 ^ 32
length-two_written = omega (
  arith,
  length-append (magic ++ frames sum (txn ∷ [])) (encode sum txn),
  length-append magic (frames sum (txn ∷ [])),
  length-one_written,
  length-encode sum txn,
  length-txn,
)

crash-Recovers_example :
    let r = write sum good_write good_sync txn one_written in
    (one_written.fsync ≡ true → r.1 ≡ none → good_sync r.0.file ≡ true)
    × Recovers sum no_json sum-is_word count 0 (acked_after sum no_json (txn ∷ []) txn r.1) r.0
crash-Recovers_example =
    crash-Recovers sum no_json sum-is_word count 0 good_write good_sync good_write-IsDisk (txn ∷ [])
      txn one_written (txn-IsTransaction, tt) txn-IsTransaction refl (is_whole refl)
      (rw two_written length-two_written)

unfoldable zeros : ℕ → Bytes
zeros zero = []
zeros (suc n) = 0 ∷ zeros n

length-zeros : (n : ℕ) → length (zeros n) ≡ n
unfolding zeros
length-zeros zero = refl
length-zeros (suc n) = omega (arith, length-zeros n)

-- One statement of `n` bytes.
abbrev statement : ℕ → List Record
statement n = ddl_record (zeros n) ∷ []

length-statement :
    (n : ℕ)
    → length (body (statement n)) ≡ length (append_uvarint 1) + 1 + length (append_uvarint n) + n
unfolding body append_records append_record append_text ddl_record
length-statement n =
    let text = append_uvarint (length (zeros n)) ++ zeros n in
    let size = ap (λ (k : ℕ). length (append_uvarint k)) (length-zeros n) in
    omega (
      arith,
      length-append (append_uvarint 1) (0 ∷ text ++ []),
      length-append text [],
      length-append (append_uvarint (length (zeros n))) (zeros n),
      length-zeros n,
      size,
    )

length-vast : length (body (statement (2 ^ 30))) ≡ 2 ^ 30 + 7
length-vast = length-statement (2 ^ 30) ∙ unfold append_uvarint in refl

oversized_lost_example :
    (write sum good_write good_sync (statement (2 ^ 30)) one_written
      ≡ (extended sum one_written (statement (2 ^ 30)), none))
    × (replay sum no_json count 0
          (reopened sum no_json (extended sum one_written (statement (2 ^ 30))))
        ≡ Replayed sum
            (reopened sum no_json (extended sum one_written (statement (2 ^ 30))))
            (txn ∷ [])
            (replay_all count 0 (txn ∷ [])))
oversized_lost_example =
    oversized_lost sum no_json sum-is_word count 0 (txn ∷ []) (statement (2 ^ 30)) one_written refl
      refl refl (txn-IsTransaction, tt) (λ e. cc) (omega (arith, length-vast))
      (omega (arith, length-vast, length-one_written))

-- A log of 4 GiB behind the header of its first frame.
abbrev long_log : Log
long_log = record {
  file = magic ++ (encode sum txn ++ zeros (2 ^ 32 - 19));
  fsync = true;
  has_file = true;
  replayed = false;
  dirty = false;
}

far_lost_example :
    ((replay sum no_json count 0 long_log).1 ≡ ok 0)
    × ((replay sum no_json count 0 long_log).0.file ≡ magic)
far_lost_example =
    far_lost sum no_json sum-is_word count 0 txn (zeros (2 ^ 32 - 19)) long_log refl refl
      txn-IsTransaction (omega (arith, length-txn, length-zeros (2 ^ 32 - 19)))

abbrev on_disk : Directory
on_disk = record { wal = one_written.file; previous = none; tmp = none }

-- The log cannot be given its second name.
abbrev no_links : Call → Bool
no_links link = true
no_links _ = false

checkpoint-OldOrNew_example :
    All
      (OldOrNew on_disk (write_checkpoint sum txn))
      (checkpoint sum no_links 3 txn on_disk one_written).0
checkpoint-OldOrNew_example = checkpoint-OldOrNew sum no_links 3 txn on_disk one_written

abbrev compacted : Log
compacted = record {
  file = write_checkpoint sum txn;
  fsync = true;
  has_file = true;
  replayed = false;
  dirty = false;
}
