-- ===== src/Lib.antt =====
-- Verification of the xv6 kernel of this repository: pipes, the file system log, the process table,
-- locks, the buffer cache, the page allocator and page tables, the string functions, the table of open
-- files, the file system and its calls, the console, the arguments of system calls, and parts of the
-- user library and programs, as definitions translated from the C and theorems about them.
--
-- The parts, and how they stand to one another:
-- * Pipe (pipe.c). A call of `pipewrite` or `piperead` here is one critical section, up to the next
--   `sleep`; `Pipe.History` interleaves sections of any readers and writers. The counters are `uint`
--   and wrap at 2^32. Bytes are numbers; `killed` is an argument of a section.
-- * Disk (bread and bwrite of bio.c over iderw of memide.c). The disk, one buffer for each block
--   number with its flags, and the number of writes before the power fails. The list of the cache
--   and the recycling of buffers are in Bcache. A block is a map from word indices to
--   words, and one block is written at once or not at all. Block numbers from FSSIZE on panic, as
--   in ide.c.
-- * Spinlock (spinlock.c, sleeplock.c). `Spinlock.Defs` takes `acquire` and `release` apart into accesses
--   to memory, and `run` is any order of them by any processors; `xchg` and the order of the writes are
--   those of one memory. Other components take a critical section as one step.
-- * Bcache (the list of bio.c). The pointers of the buffers are maps of indices, and `bcache.head` is NBUF;
--   `Bcache.Links` reads them as a list. Loops have NBUF rounds, as many as there are buffers.
-- * Log (log.c). `Log.Defs` has each function; the loops are recursions on the rounds left, so no
--   fuel is needed. `Log.Replay` says what a disk stands for, `Log.Commit` and `Log.Recovery` are
--   about a power failure at any write of a commit or of a boot, and `Log.Atomic` puts them
--   together. `Log.Transaction` is the use that the comment on `log_write` describes. `Log.Session`
--   is a relation of the sections of `begin_op`, `log_write`, `end_op` and `commit` of any calls, each
--   with the different blocks that it has written, of which MAXOPBLOCKS are allowed.
--   `outstanding` is a natural number: `end_op` is called only between `begin_op` and itself.
-- * Proc (proc.c). The table is a map from indices, of which the first NPROC are meant; pointers into
--   it are indices. Each function is a section under `ptable.lock`, with the work on the caller's own
--   process or on an embryo around it. Memory, files and inodes are a record of operations
--   (`Proc.Services`) over a state of their own. `wait` and `sleep` stop at the call of `sched`.
--   `scheduler` runs for any number of rounds; `runs` is what a process does to the table while it
--   runs. Pids do not wrap: fewer than 2^31 processes are made.
-- * Kalloc (kalloc.c). The free list is threaded through the memory, a map from addresses to words;
--   `Kalloc.Chain` reads it as a list, and `Kalloc.Ownership` is a relation of the calls and writes
--   of the allocator's users. `freerange` has fuel for all pages below the end of the range.
-- * Vm (vm.c). Page tables are pages in the memory of `Kmem`, which `mem` gives at the addresses that
--   the kernel uses; that a user page has a second address is not in it. `Vm.Tables` has the walk and the
--   mappings, `Vm.Space` what grows, shrinks, copies and frees the memory of a process, `Vm.Copy` what
--   the kernel puts there. Loops have the pages of their range as fuel. `end` and `data` of the linker and
--   what `readi` reads are parameters. Loads of processor registers are not in it.
-- * Strings (string.c). `memmove`, `memcpy`, `safestrcpy` and `strlen`, on a memory of bytes in which
--   no address wraps. `strlen_from` has fuel, the bytes that may be read before the 0.
-- * File (file.c). The table of open files is a map from indices, of which the first NFILE are meant;
--   `File.Holders` takes descriptors as a list of indices. `File.Io` has `filestat`, `fileread` and
--   `filewrite` over the inodes of Fs, with as many rounds as bytes; pipes and the log are parameters.
-- * Fs (fs.c, over bread and log_write). `Fs.Machine` has the state: the blocks as `bread` returns
--   them, the inode cache and the superblock; `blocks` is what `Log.Transaction` shows a commit to put
--   on the disk. `Fs.Blocks`, `Fs.Inodes`, `Fs.Content`, `Fs.Directory` and `Fs.Path` have the functions
--   layer by layer, with panics and with waiting for a sleep lock as outcomes; the functions of devices
--   are a parameter. Each loop has the rounds as fuel that its bound allows: bytes for `readi` and
--   `writei`, characters for `namex`, entries for directories. A path is the list of its characters, and
--   a name the bytes of its buffer. One call runs at a time.
-- * Console (console.c). `consoleintr` takes the list of what `getc` gives, and `consoleread` is a section up
--   to the next `sleep`; the loop for ^U has as many rounds as the buffer has bytes. `Console.Keys` has an
--   editor of a line before a queue, which the ring is. The echo and the listing for ^P are not in it.
-- * Syscall (syscall.c). The fetches of arguments, on a user's memory of `sz` bytes; `fetchstr` has as
--   fuel the bytes up to the end of it.
-- * Sysfile (sysfile.c, and pipealloc of pipe.c). `Sysfile.Machine` has the state of a call: the file
--   system, the table of open files, the descriptors and `cwd` of the calling process. `Sysfile.Links`
--   is about links and `create`, `Sysfile.Descriptors`, `Sysfile.Paths` and `Sysfile.Pipes` about the calls.
--   `Sysfile.Counted` counts descriptors. The log's calls, pipes and `exec` are parameters.
-- * User (ulib.c, printf.c and the matcher of grep.c). `User.Library` has strings as bytes from an
--   address on, with fuel for the bytes before the 0; `User.Format` gives the characters that `printint`
--   and `printf` write, with fuel 32, the digits of a `uint` in base 2; the characters of a `%s` are a
--   parameter. `User.Grep` takes patterns and lines as lists of characters and needs no fuel.
--
-- A critical section under a spinlock is one step throughout. Not modelled: the x86 start-up and trap
-- code, device drivers (their registers are outside the C) and the other user programs.
mod Prelude
pub mod Disk
pub mod Log
pub mod Pipe
pub mod Proc
pub mod Kalloc
pub mod Strings
pub mod User
pub mod Vm
pub mod Console
pub mod Spinlock
pub mod Bcache
pub mod Sysfile
pub mod Syscall
pub mod File
pub mod Fs
