-- ===== src/Copy.antt =====
-- The reversed copies of cw3: byte by byte (zad1.c, flipper.c) and in blocks of 1024 bytes (zad1.c).
pub mod Stream
pub mod Bytes
pub mod Blocks
pub mod Swaps
pub mod Rounds
pub mod Main
mod Tests
