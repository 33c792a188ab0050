-- ===== src/Builtin.antt =====
-- internal/builtin: aggregates and scalar functions.
pub mod Keys
pub mod Aggregate
