-- ===== src/Strings.antt =====
-- string.c: the kernel's functions on memory and strings.
mod Defs
pub mod Move
mod Compare
pub mod Safe
mod Examples
unfoldable pub use Defs.{copy_up, copy_down, memmove, memcpy, safe_copy, safestrcpy, strlen_from}
unfoldable pub use Compare.{
  memcmp_from, memcmp, strncmp_from, strncmp, fill_zero, strncpy_from, strncpy,
}
