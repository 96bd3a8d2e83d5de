-- ===== src/Trade.antt =====
-- internal/domain/trade: entities, value objects, rule chains and services of the trade context.
pub mod Entities
pub mod Notify
pub mod Refund
pub mod StockKey
