-- ===== src/Rmp/Op.antt =====
-- src/rmp.h: the operations `RMPOP_*`.
use bootd.Base.{ℕ}

abbrev pub boot_req : ℕ
boot_req = 1

abbrev pub boot_repl : ℕ
boot_repl = 129

abbrev pub read_req : ℕ
read_req = 2

abbrev pub read_repl : ℕ
read_repl = 130

abbrev pub boot_done : ℕ
boot_done = 3
