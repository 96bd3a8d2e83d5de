-- ===== src/Store.antt =====
-- The repository's outside: the tables of internal/infrastructure/dao/po/models.go, the Redis keys,
-- and a call that may fail at each statement. A call is a function from the world to its outcome and
-- the world after it. `faults` is the schedule of the outside's failures, one entry for each
-- statement or command: `some message` makes that statement fail with no effect, and past its end
-- nothing fails.
pub mod Rows
pub mod Call
pub mod Table
pub mod Only
pub mod Rules
pub mod Keeps
pub mod Facts
pub mod Safe
