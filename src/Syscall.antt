-- ===== src/Syscall.antt =====
-- syscall.c: the arguments of a system call, fetched from the user's memory.
pub mod Args
pub mod Pointers
mod Examples
