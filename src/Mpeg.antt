-- ===== src/Mpeg.antt =====
-- src/mpeg.c and src/mpeg.h: finding frames of MPEG audio, AAC, USAC and transport streams.
pub mod Sync
pub mod Header
pub mod Handle
pub mod Detect
pub mod Initial
pub mod Run
mod Tests
