-- ===== src/Life.antt =====
-- The game of life of cw9: the rule on a grid of 30 by 30 cells, and the threads that apply it.
pub mod Grid
pub mod Rule
pub mod Update
pub mod Threads
pub mod Generation
pub mod Ends
pub mod Bounds
pub mod Draw
pub mod Startup
mod Tests
