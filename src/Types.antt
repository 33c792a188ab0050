-- ===== src/Types.antt =====
-- internal/types: three-valued logic, values and their order, exact decimals.
pub mod Bool3
pub mod Word
pub mod Overflow
pub mod Decimal
pub mod Numeric
pub mod Division
pub mod Codec
pub mod Value
pub mod Float
pub mod Compare
pub mod Tests
pub mod Bytea
