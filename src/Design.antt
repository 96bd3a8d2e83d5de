-- ===== src/Design.antt =====
-- internal/design: the chain of responsibility that the rule chains use.
pub mod Chain
