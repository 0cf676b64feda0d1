-- ===== src/Scan.antt =====
-- src/parser/scan.rs
pub mod Swar
pub mod Lanes
pub mod Marks
pub mod Find
pub mod Memchr
pub mod Backward
pub mod Delims
pub mod Tests
