-- ===== src/Spooler.antt =====
-- The print spooler of cw8: clients and printers around a ring of ten jobs in shared memory.
pub mod Text
pub mod Machine
pub mod Window
pub mod Invariant
pub mod Jobs
pub mod Safety
pub mod Progress
pub mod SystemV
pub mod Simulation
pub mod Setup
pub mod Restart
pub mod SetupV
mod Tests
