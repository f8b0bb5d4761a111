-- ===== src/Server.antt =====
-- The daemon's state, the outcomes of its code, and the calls it makes of the system.
pub mod State
pub mod Run
pub mod System
pub mod Packet
pub mod Reader
