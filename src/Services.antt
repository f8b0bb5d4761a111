-- ===== src/Services.antt =====
-- src/service.c and src/ngenutil.c: the table of services, their ids and names.
pub mod Ids
pub mod Table
pub mod Names
pub mod Bind
