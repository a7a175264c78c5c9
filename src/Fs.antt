-- ===== src/Fs.antt =====
-- fs.c and fs.h: blocks, inodes, their contents, directories and path names.
mod Machine
mod Blocks
mod Inodes
mod Content
mod Directory
mod Path
mod Fields
mod Update
mod Elements
mod Cache
mod Bits
mod Bitmap
mod Balloc
mod Mapped
mod Reading
mod Writing
mod Overwrite
mod Roundtrip
mod Examples
pub use Machine.{
  Block, Superblock, Inode, State, Ran, ok, panic, waits, M, and_then, ◌>>=◌, ◌>>◌, pure, ndirect,
  nindirect, maxfile, ipb, bpb, dirsiz, ninode, bsize, t_dir, t_dev,
}
unfoldable pub use Machine.{
  read16, read32, write16, write32, bread, log_write, set_inode, iblock, bblock, dinode_at, readsb,
  superblock_of,
}
unfoldable pub use Blocks.{used, mark, unmark, find_clear, bzero, balloc_from, balloc, bfree}
unfoldable pub use Inodes.{
  put_dinode, iupdate, iget, iget_scan, idup, load_inode, ilock, iunlock, ialloc_from, ialloc,
}
pub use Content.{Device}
unfoldable pub use Content.{readi, writei}
pub use Directory.{Name}
unfoldable pub use Content.{iput, iunlockput}
unfoldable pub use Directory.{namecmp, is_zero, de_inum, read_entry, dirlookup, dirlink}
unfoldable pub use Path.{namei, nameiparent}
