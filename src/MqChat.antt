-- ===== src/MqChat.antt =====
-- The message queue chat of cw7: its messages, the POSIX and the System V server, the client.
pub mod Message
pub mod Server
pub mod Table
pub mod Counts
pub mod Ledger
pub mod Routing
pub mod LongType
pub mod ServerV
pub mod Size
pub mod Forget
pub mod Refine
pub mod Client
pub mod ClientV
pub mod Session
mod Tests
