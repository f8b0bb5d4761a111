-- ===== src/Rmp.antt =====
-- src/rmp.c: the server of HP's remote maintenance protocol, with the frames of src/rmp.h.
pub mod Op
pub mod Code
pub mod Packet
pub mod Handler
