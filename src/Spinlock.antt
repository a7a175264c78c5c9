-- ===== src/Spinlock.antt =====
-- spinlock.c: the locks.
pub mod Defs
pub mod Held
pub mod Exclusion
pub mod Nesting
mod Examples
pub mod Sleep
