-- ===== src/Log/File.antt =====
-- Where log messages go (`log_set_file` of src/log.c), and the number of a module.
use bootd.Base.{
  ℕ, zero, suc, ◌+◌, ◌-◌, ◌*◌, ◌/◌, ◌%◌, ◌^◌, ◌<◌, ◌≡◌, ◌≢◌, refl, Bool, true, false, not, ◌||◌,
  ◌&&◌, Option, none, some, List, [], ◌∷◌, ◌==◌, if◌then◌else◌, Text, codes, strcmp_eq, arith,
  Bool-cases, Option-cases, inl, inr, ◌≤◌,
}
pub mod Last
use bootd.Log.{mod_of}

-- `l_fd`, and the descriptors of log files that are open, the newest first
pub record LogFile : Type 0 where
  pub fd : ℕ
  pub opened : List ℕ

-- `STDOUT_FILENO` and `STDERR_FILENO`, where the log goes first
abbrev pub stdout_fileno : ℕ
stdout_fileno = 1

abbrev pub stderr_fileno : ℕ
stderr_fileno = 2

abbrev pub log_initial : LogFile
log_initial = record { fd = stderr_fileno; opened = [] }

abbrev pub is_standard : ℕ → Bool
is_standard fd = fd == stdout_fileno || fd == stderr_fileno

abbrev pub closed : ℕ → List ℕ → List ℕ
closed fd [] = []
closed fd (x ∷ xs) = let rest = closed fd xs in if x == fd then xs else x ∷ rest

-- Behind `open` for appending, of which `none` is a failure
unfoldable pub log_opened : Option ℕ → LogFile → LogFile
log_opened none l = l
log_opened (some fd) l =
    if is_standard l.fd
    then record { fd = fd; opened = fd ∷ l.opened }
    else record { fd = fd; opened = fd ∷ closed l.fd l.opened }

abbrev pub names_standard : Text → Bool
names_standard w =
    strcmp_eq w (codes "-") || strcmp_eq w (codes "stdout") || strcmp_eq w (codes "stderr")

-- `log_set_file`, with what `open` returns if it is called: for a name of a standard stream only
-- local variables are set.
unfoldable pub log_set_file : (result : Option ℕ) → (filename : Option Text) → LogFile → LogFile
unfolding log_opened
log_set_file result none l = l
log_set_file result (some w) l = if names_standard w then l else log_opened result l

-- `l_modlevel2modnum` from bit `i` on, with `LOG_MOD_MAX` bits in all
abbrev pub log_mod_max : ℕ
log_mod_max = 16

unfoldable pub modnum_from : (rounds i : ℕ) → (level : ℕ) → ℕ
modnum_from zero i level = 0
modnum_from (suc k) i level =
    let rest = modnum_from k (i + 1) level in if level == 2 ^ i then i + 1 else rest

unfoldable pub modlevel2modnum : (level : ℕ) → ℕ
unfolding modnum_from
modlevel2modnum level = modnum_from log_mod_max 0 level

-- The module's number in the prefix of a message: that of `what & LOG_MOD`
unfoldable pub prefix_modnum : (what : ℕ) → ℕ
unfolding modlevel2modnum
prefix_modnum what = modlevel2modnum (mod_of what * 65536)
