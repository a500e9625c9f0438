-- ===== src/Catcher.antt =====
-- The signal catcher of cw5.
pub mod Machine
pub mod Steps
pub mod Requests
mod Tests
