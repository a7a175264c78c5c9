-- ===== src/User.antt =====
-- The user library and user programs.
pub mod Library
pub mod Format
pub mod Grep
