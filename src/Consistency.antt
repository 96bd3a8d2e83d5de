-- ===== src/Consistency.antt =====
-- The counters of a team against the orders of the team, through every trade transaction of
-- internal/infrastructure/repository/trade_repository.go.
pub mod Counts
pub mod Recount
pub mod Teams
pub mod Settle
pub mod Refund
pub mod Places
pub mod Lock
pub mod Orders
