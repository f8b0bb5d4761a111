-- ===== src/Rmp/Code.antt =====
-- src/rmp.h: the return codes `RMP_E_*` that the handler sends.
use bootd.Base.{ℕ}

abbrev pub okay : ℕ
okay = 0

abbrev pub eof : ℕ
eof = 2

abbrev pub abort : ℕ
abort = 3

abbrev pub nodflt : ℕ
nodflt = 18

abbrev pub badsid : ℕ
badsid = 25
