-- ===== src/Tftp.antt =====
-- src/tftp.c: the TFTP server.
pub mod Packet
pub mod Handler
