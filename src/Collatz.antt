-- ===== src/Collatz.antt =====
-- The collatz library of cw2.
pub mod Step
pub mod Search
pub mod Client
mod Tests
