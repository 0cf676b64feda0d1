-- ===== src/Buffer.antt =====
-- src/parser/serialization.rs and `Backing` of src/lib.rs
pub mod Backing
pub mod Defs
pub mod Refines
pub mod Edits
pub mod ZeroCopy
pub mod Tests
