-- ===== src/Trade/Refund.antt =====
-- internal/domain/trade/model/valobj/refund_type.go and the refund behaviours of entities.go.
pub mod Types
