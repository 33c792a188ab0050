-- ===== src/Engine.antt =====
-- internal/engine.
pub mod Recover
pub mod Tests
