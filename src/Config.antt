-- ===== src/Config.antt =====
-- The configuration file: src/tokenize.c, src/parse.c and src/conf.c.
pub mod Scanner
pub mod Tokenizer
pub mod Parser
pub mod Lookup
pub mod Values
pub mod Hosts
pub mod Evaluate
pub mod Args
