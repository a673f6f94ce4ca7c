-- ===== src/Icy2.antt =====
-- src/icy2_meta.c: the metadata that a source sends with its headers, and what becomes of it.
pub mod Rows
pub mod Headers
pub mod Stats
pub mod Meta
pub mod Report
mod Tests
