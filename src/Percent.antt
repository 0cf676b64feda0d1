-- ===== src/Percent.antt =====
-- src/parser/percent.rs
pub mod Sets
pub mod Codec
pub mod Encode
pub mod Decode
pub mod Reference
pub mod Clean
pub mod Tests
