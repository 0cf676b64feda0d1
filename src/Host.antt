-- ===== src/Host.antt =====
-- src/parser/host.rs
pub mod Ipv4
pub mod Ipv6
pub mod Opaque
pub mod Special
pub mod Tests
