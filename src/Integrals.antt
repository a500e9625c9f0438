-- ===== src/Integrals.antt =====
-- The numeric integration of cw6: its sum over one interval, its processes.
pub mod Floats
pub mod Sum
pub mod Processes
pub mod Parallel
pub mod Ends
pub mod Progress
pub mod Fifo
mod Tests
