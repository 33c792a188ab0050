-- ===== src/Wal/Checkpoint.antt =====
-- internal/wal/log.go: Checkpoint. The directory of the log is the contents of its three files. Which of
-- the calls of the operating system fail is a parameter, and so is how much of the new file there is when it
-- is looked at while it is written. Removing the temporary file is taken to succeed.
pub mod Safety
use lightsql.Common.{
  ℕ, Bool, true, false, not, List, [], ◌∷◌, ◌++◌, Option, none, some, if◌then◌else◌, Bytes, take,
  Code, internal_error,
}
use lightsql.Wal.Record.{Record}
use lightsql.Wal.Frame.{encode}
use lightsql.Wal.Log.{Log, magic}

-- The files called Name, PreviousName and Name + ".tmp".
pub record Directory : Type 0 where
  pub wal : Bytes
  pub previous : Option Bytes
  pub tmp : Option Bytes

-- The calls of a checkpoint that can fail.
pub data Call : Type 0 where
  create fill close_tmp remove_previous link rename sync_dir close_old reopen : Call

-- What comes of a checkpoint: the directories that there were on the way, in order; the log; an error.
abbrev pub Outcome : Type 0
Outcome = List Directory × Log × Option Code

abbrev pub failure : List Directory → Log → Outcome
failure dirs l = (dirs, l, some internal_error)

module _ (checksum : Bytes → ℕ) where
  -- What `writeCheckpoint` writes.
  unfoldable pub write_checkpoint : List Record → Bytes
  write_checkpoint [] = magic
  write_checkpoint (r ∷ rs) = magic ++ encode checksum (r ∷ rs)

  module _ (fails : Call → Bool) (cut : ℕ) where
    -- After the rename: the directory is flushed, and the log is opened again.
    unfoldable pub install : List Directory → Bytes → Log → Outcome
    install dirs new l =
        if fails sync_dir
        then failure dirs l
        else if fails close_old
        then failure dirs l
        else if fails reopen
        then failure dirs (record l { file = new; has_file = false })
        else (dirs, record l { file = new; dirty = false }, none)

    -- After the temporary file is complete: the old log gets its second name, and is replaced.
    unfoldable pub swap_files : Bytes → Directory → Log → Outcome
    unfolding install
    swap_files new d l =
        let filling = record d { tmp = some (take cut new) } in
        let filled = record d { tmp = some new } in
        let forgotten = record filled { previous = none } in
        let linked = record filled { previous = some d.wal } in
        if fails remove_previous
        then failure (filling ∷ filled ∷ record d { tmp = none } ∷ []) l
        else if fails link
        then (filling ∷ filled ∷ forgotten ∷ record forgotten { tmp = none } ∷ [], l, none)
        else if fails rename
        then failure (filling ∷ filled ∷ forgotten ∷ linked ∷ record linked { tmp = none } ∷ []) l
        else install
            (filling
              ∷ filled
              ∷ forgotten
              ∷ linked
              ∷ record { wal = new; previous = some d.wal; tmp = none }
              ∷ [])
            new l

    -- `Checkpoint`
    unfoldable pub checkpoint : List Record → Directory → Log → Outcome
    unfolding write_checkpoint swap_files
    checkpoint recs d l =
        let new = write_checkpoint recs in
        if not l.replayed
        then failure [] l
        else if not l.dirty
        then ([], l, none)
        else if fails create
        then failure [] l
        else if fails fill
        then failure (record d { tmp = some (take cut new) } ∷ record d { tmp = none } ∷ []) l
        else if fails close_tmp
        then failure
            (record d { tmp = some (take cut new) }
              ∷ record d { tmp = some new }
              ∷ record d { tmp = none }
              ∷ [])
            l
        else swap_files new d l
