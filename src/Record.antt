-- ===== src/Record.antt =====
-- src/lib.rs, the small parts of a URL record: its flags and its origin.
pub mod Flags
pub mod Origin
pub mod Tests
