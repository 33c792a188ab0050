-- ===== src/Wal.antt =====
-- internal/wal: the write-ahead log.
pub mod Record
pub mod Codec
pub mod Frame
pub mod Log
pub mod Checkpoint
pub mod Tests
