-- ===== src/Host.antt =====
-- src/host.c: hosts, their files and their sessions.
pub mod Memory
pub mod Sessions
pub mod Add
pub mod Files
