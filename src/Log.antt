-- ===== src/Log.antt =====
-- log.c: transactions over the disk. The header block holds the count in word 0 and the home block
-- of logged block i in word i + 1; log block i stands at `start + i + 1`.
mod Defs
pub mod Copy
pub mod Replay
pub mod Commit
pub mod Recovery
pub mod Atomic
pub mod Entry
pub mod Transaction
pub mod Session
pub mod Reserve
pub mod Overflow
mod Examples
pub use Defs.{logsize, maxopblocks, Log, Header}
unfoldable pub use Defs.{
  for_blocks, fill_header, write_head, read_head, install_block, install_trans, log_block,
  write_log, commit, recover_from_log, find_entry, log_entry, log_write, begin_op, end_op_start,
  end_op_finish, end_op,
}
