-- ===== src/Vm.antt =====
-- vm.c: page tables.
pub mod Machine
pub mod Tables
pub mod Space
pub mod Copy
pub mod Bits
pub mod Entries
pub mod Entering
pub mod Mapping
mod Examples
