-- ===== src/Exec.antt =====
-- internal/exec: the operators and expressions of a plan.
pub mod SetOp
pub mod Join
pub mod Group
pub mod Stream
pub mod Sort
pub mod Conflict
pub mod Eval
pub mod Expr
pub mod Subquery
pub mod Compile
pub mod Tests
