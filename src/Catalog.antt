-- ===== src/Catalog.antt =====
-- internal/catalog.
pub mod Unique
pub mod References
pub mod Row
pub mod Table
pub mod Tests
