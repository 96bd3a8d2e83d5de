-- ===== src/Scenarios.antt =====
-- Small worlds, and the theorems of the development at them.
pub mod Overlap
pub mod Market
pub mod Trades
pub mod Services
pub mod Configuration
pub mod Requests
pub mod Deliveries
pub mod Parts
pub mod Amounts
pub mod Trials
pub mod Edges
pub mod Crowds
pub mod Runs
pub mod Topics
