-- ===== src/Strings.antt =====
-- src/str.c: words for values, and quoting.
pub mod Quote
pub mod Words
pub mod Hostport
pub mod Print
