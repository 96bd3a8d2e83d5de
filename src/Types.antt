-- ===== src/Types.antt =====
-- internal/types: response codes, enums, exceptions and constants, and the outcome of a Go call.
pub mod Codes
pub mod Enums
pub mod Outcome
