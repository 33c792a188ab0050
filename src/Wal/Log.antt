-- ===== src/Wal/Log.antt =====
-- internal/wal/log.go: the log file, its replay and its writes. The file is the list of its bytes. What
-- the operating system does when bytes are written to it or flushed is a parameter; reading it,
-- truncating it and setting its position are taken to succeed.
pub mod Replay
pub mod Recovery
pub mod Crash
pub mod Limits
use lightsql.Common.{
  ℕ, zero, suc, ◌+◌, ◌-◌, Bool, true, false, ◌&&◌, not, List, [], ◌∷◌, ◌++◌, Option, none, some,
  ◌==◌, if◌then◌else◌, Bytes, bytes_eq, length, take, drop, Result, ok, err, Code, internal_error,
  data_corrupted, ◌>>=◌,
}
use lightsql.Types.Value.{Value}
use lightsql.Wal.Record.{Record}
use lightsql.Wal.Frame.{encode, next_frame}

-- `magic`
abbrev pub magic : Bytes
magic = b'L' ∷ b'S' ∷ b'Q' ∷ b'L' ∷ b'W' ∷ b'A' ∷ b'L' ∷ 1 ∷ []

-- `has_file` says whether `f` is not nil.
pub record Log : Type 0 where
  pub file : Bytes
  pub fsync : Bool
  pub has_file : Bool
  pub replayed : Bool
  pub dirty : Bool

-- `Open` on a file of the given contents: the header is written to an empty one, and a file that does
-- not start with it is refused.
unfoldable pub open_log : Bytes → Bool → Result Log
open_log [] fsync =
    ok (record { file = magic; fsync = fsync; has_file = true; replayed = false; dirty = false })
open_log (b ∷ bs) fsync =
    if bytes_eq (take 8 (b ∷ bs)) magic
    then ok
        (record { file = b ∷ bs; fsync = fsync; has_file = true; replayed = false; dirty = false })
    else err data_corrupted

module _ (checksum : Bytes → ℕ) where
  module _ (parse_jsonb : Bytes → Option Value) where
    module _ {S : Type 0} (fn : S → List Record → Result S) where
      -- The loop of `Replay`. It takes a frame off `rest` in each round, so its length bounds the rounds.
      -- `good` counts the bytes of the whole frames.
      unfoldable pub replay_frames : ℕ → S → Bytes → ℕ → Result (S × ℕ)
      replay_frames zero s rest good = ok (s, good)
      replay_frames (suc fuel) s rest good = elim (next_frame checksum parse_jsonb rest) [
        | err c ↦ ok (s, good)
        | ok ([], remaining) ↦ ok (s, good)
        | ok (r ∷ rs, remaining) ↦ fn s (r ∷ rs) >>= λ (s' : S).
            replay_frames fuel s' remaining (good + (length rest - length remaining))
      ]

      -- What Replay does after its loop: the file is cut to the whole frames.
      unfoldable pub finish_replay : Log → Result (S × ℕ) → Log × Result S
      finish_replay l (err c) = (l, err c)
      finish_replay l (ok (s, good)) = (record l { file = take good l.file; replayed = true }, ok s)

      -- `Replay`, with the state that `fn` builds.
      unfoldable pub replay : S → Log → Log × Result S
      unfolding replay_frames finish_replay
      replay s l =
          if l.replayed
          then (l, err internal_error)
          else let rest = drop 8 l.file in
            finish_replay l (replay_frames (suc (length rest)) s rest 8)

  -- `disk_write` gives the bytes that reached the file, and whether the write succeeded; `disk_sync`
  -- whether the file could be flushed.
  module _ (disk_write : Bytes → Bytes × Bool) (disk_sync : Bytes → Bool) where
    -- The bytes of one frame, appended and flushed; a failure closes the file.
    unfoldable pub append_frame : Bytes → Log → Log × Option Code
    append_frame frame l =
        let (written, fine) = disk_write frame in
        if not l.has_file
        then (l, some internal_error)
        else if not fine
        then (record l { file = l.file ++ written; has_file = false }, some internal_error)
        else if l.fsync && not (disk_sync (l.file ++ written))
        then (
          record l { file = l.file ++ written; has_file = false; dirty = true },
          some internal_error,
        )
        else (record l { file = l.file ++ written; dirty = true }, none)

    -- `Write`
    unfoldable pub write : List Record → Log → Log × Option Code
    unfolding append_frame
    write [] l = (l, none)
    write (r ∷ rs) l =
        if not l.replayed
        then (l, some internal_error)
        else append_frame (encode checksum (r ∷ rs)) l
