-- ===== src/Fork.antt =====
-- The processes of cw4 and the signal dispositions of cw5/zadanie1.
pub mod Descendants
pub mod Places
pub mod Waits
pub mod Ends
pub mod Exec
pub mod Disposition
pub mod Killed
mod Tests
