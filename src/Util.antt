-- ===== src/Util.antt =====
-- src/util.c: helpers for URIs, base64, dictionaries, rates and patterns.
pub mod Uri
pub mod Base64
pub mod Dict
pub mod Pattern
pub mod Rate
