-- ===== src/Repository.antt =====
-- internal/infrastructure/repository/trade_repository.go: the trade repository over the tables and
-- Redis. Each method is a call on the world; `now` is what its `time.Now()` returns, and the draws
-- of `rand.Intn` are arguments.
pub mod Text
pub mod Sql
pub mod SqlRules
pub mod Queries
pub mod Reads
pub mod Lock
pub mod Settle
pub mod Refund
pub mod Tasks
pub mod Stock
