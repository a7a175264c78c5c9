-- ===== src/File.antt =====
-- file.c: the table of open files.
mod Defs
pub mod Holders
pub mod Io
mod Examples
pub use Defs.{FileType, File, Closed, still_open, closes_pipe, closes_inode, closes_nothing, nfile}
unfoldable pub use Defs.{find_free, filealloc, filedup, close_kind, fileclose}
