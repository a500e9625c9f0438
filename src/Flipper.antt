-- ===== src/Flipper.antt =====
-- The directory flipper of cw3.
pub mod Directory
pub mod Files
pub mod Run
pub mod Apart
mod Tests
