-- ===== src/Util.antt =====
-- src/util.c: finding hosts and files, and names for addresses.
pub mod Files
pub mod Read
pub mod Walk
pub mod Resolve
