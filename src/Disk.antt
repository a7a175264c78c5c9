-- ===== src/Disk.antt =====
-- The disk under bio.c and the IDE driver (ide.c, memide.c), with power failures.
-- A block is a map from the index of a 32-bit word to the word. A transfer of one block is atomic.
-- The machine may lose power at any write: `writes_left` says how many writes still reach the disk.
-- A buffer is seen here by its contents and flags, one for each block number; that a block has at
-- most one buffer, and which buffer is recycled, is the matter of the cache's list in bio.c.
mod Machine
pub mod View
pub use Machine.{
  Block, fssize, Buf, Disk, Outcome, ok, crash, panic, M, and_then, ◌>>=◌, ◌>>◌, pure,
}
unfoldable pub use Machine.{iderw, bread, bwrite, set_data, set_dirty, power_on}
