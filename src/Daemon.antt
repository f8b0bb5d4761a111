-- ===== src/Daemon.antt =====
-- The daemon as a whole: what its listeners receive, its loop over them, and how it sets them up
-- (src/listener.c, src/service.c, src/bootd.c).
pub mod Network
pub mod Receive
pub mod Select
pub mod Link
pub mod Rpc
pub mod Start
pub mod Main
