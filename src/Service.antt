-- ===== src/Service.antt =====
-- internal/domain/trade/service: the rule chains and the services that the application layer calls.
pub mod Lock
pub mod Settlement
pub mod Refund
pub mod Task
pub mod Unique
pub mod Reach
