-- ===== src/Parser.antt =====
-- src/parser/mod.rs, the basic URL parser.
pub mod Result
pub mod Input
pub mod Drive
pub mod Path
pub mod Query
pub mod Record
pub mod Scheme
pub mod Userinfo
pub mod Authority
pub mod Finish
pub mod Relative
pub mod File
pub mod Url
pub mod HostSetter
mod Tests
