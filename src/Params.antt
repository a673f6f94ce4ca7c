-- ===== src/Params.antt =====
-- src/params.c and src/params.h: the list of headers of a response, and its text.
pub mod Table
pub mod Http
pub mod Output
