-- ===== src/Spooler/Invariant.antt =====
-- What holds between the steps of clients and printers: how the semaphores count the processes,
-- and which jobs the ring holds.
pub mod ClientAt
pub mod PrinterAt
pub mod Defs
pub mod Clients
pub mod Printers
pub mod Reachable
