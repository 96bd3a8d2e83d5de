-- ===== src/Trigger.antt =====
-- internal/trigger: the timers, the message listeners and the HTTP entries.
pub mod Job
pub mod Listener
pub mod RateLimit
pub mod Http
