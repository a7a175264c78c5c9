-- ===== src/Sysfile.antt =====
-- sysfile.c: the system calls on files.
pub mod Links
pub mod Machine
pub mod Descriptors
pub mod Counted
pub mod Opened
pub mod Sharing
pub mod Paths
pub mod Pipes
mod Examples
