-- ===== src/Util/Read.antt =====
-- `util_read` of src/util.c.
use bootd.Base.{ℕ, Option, none, List, ℤ, pos, negsuc}
use bootd.Server.System.{System}

-- `lseek` and `read`: `none` is a result below 0. `lseek` refuses an offset below 0.
abbrev pub util_read : System → (calls : ℕ) → (fd len : ℕ) → (offs : ℤ) → Option (List ℕ)
util_read sys k fd len (pos offs) = sys.read_at k fd len offs
util_read sys k fd len (negsuc n) = none
