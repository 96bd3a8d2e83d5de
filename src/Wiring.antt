-- ===== src/Wiring.antt =====
-- internal/app and internal/infrastructure/mq/rabbitmq.go: the configuration, and the way of a callback
-- through the message broker.
pub mod Config
pub mod Broker
pub mod Topics
pub mod Restore
