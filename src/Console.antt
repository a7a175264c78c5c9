-- ===== src/Console.antt =====
-- console.c: the input of the console.
pub mod Defs
pub mod Editing
pub mod Keys
pub mod Reading
mod Examples
