-- ===== src/Bcache.antt =====
-- bio.c: the buffer cache, a list of buffers linked through `next` and `prev`.
pub mod Defs
pub mod Links
pub mod Unlink
pub mod Recent
pub mod Lookup
pub mod Contents
pub mod Caching
mod Examples
