-- ===== src/Listener.antt =====
-- src/listener.c: the list of listeners and their send routines.
pub mod Registry
pub mod Send
