-- ===== src/SearchParams.antt =====
-- src/search_params.rs
pub mod UrlEncoded
pub mod Collection
pub mod Tests
