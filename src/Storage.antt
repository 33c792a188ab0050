-- ===== src/Storage.antt =====
-- internal/storage: the transaction manager, row versions, the heap and transactions.
pub mod Txn
pub mod Heap
pub mod Tx
pub mod Tests
