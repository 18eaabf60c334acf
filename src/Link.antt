-- ===== src/Link.antt =====
-- tools/nanoql_link.py, the serial link to the board.
pub mod Crc
pub mod Frame
pub mod Serial
pub mod Session
pub mod Transport
pub mod Status
pub mod Memory
pub mod Errors
pub mod Bench
pub mod Tests
