-- ===== src/Santa.antt =====
-- Santa and the reindeer of cw10: a monitor with one mutex and two condition variables.
pub mod Machine
pub mod Invariant
pub mod Safety
pub mod Lost
pub mod Deliveries
mod Schedule
pub mod Main
mod Tests
