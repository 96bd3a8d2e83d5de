-- ===== src/System.antt =====
-- The program as a whole: what each of its entry points leaves in the tables of teams and orders, and
-- the worlds that they reach together.
pub mod Blind
pub mod Crowds
pub mod Deliveries
pub mod Messages
pub mod Pages
pub mod Requests
pub mod Reach
