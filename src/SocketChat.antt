-- ===== src/SocketChat.antt =====
-- The socket chat of cw11: its table of clients, its commands, its threads.
pub mod Table
pub mod Command
pub mod Threads
pub mod Counter
pub mod Capacity
pub mod Routing
pub mod Buffers
pub mod Recipients
pub mod Names
pub mod Client
pub mod Lines
pub mod Typing
pub mod Receiving
mod Tests
