-- ===== src/Log.antt =====
-- The levels of src/log.c: which messages are written, and which end the process. The text of a
-- message, and the file it goes to, are left out.
pub mod Written
pub mod File
use bootd.Base.{
  ℕ, zero, suc, ◌-◌, ◌/◌, ◌%◌, Bool, true, false, not, ◌||◌, Option, none, some, List, [], ◌∷◌,
  ◌==◌, leb, if◌then◌else◌, get_elem?, set, ℤ, pos, negsuc,
}

-- `l_minlevel`, which is -1 before `log_init`, `l_minlevel_cat` and `l_minlevel_mod`
pub record Levels : Type 0 where
  pub minlevel : ℤ
  pub cat : List ℕ
  pub mod_levels : List ℕ

-- The statically initialised levels
abbrev pub no_levels : Levels
no_levels = record {
  minlevel = negsuc 0;
  cat = 0 ∷ 0 ∷ 0 ∷ 0 ∷ 0 ∷ 0 ∷ 0 ∷ 0 ∷ 0 ∷ [];
  mod_levels = 0 ∷ 0 ∷ 0 ∷ 0 ∷ 0 ∷ 0 ∷ 0 ∷ 0 ∷ 0 ∷ 0 ∷ 0 ∷ 0 ∷ 0 ∷ 0 ∷ 0 ∷ 0 ∷ 0 ∷ [];
}

-- `what & LOG_LEVEL`, `(what & LOG_CAT) >> LOG_CAT_SHIFT`, `(what & LOG_MOD) >> LOG_MOD_SHIFT`
abbrev pub level_of : ℕ → ℕ
level_of what = what % 4

abbrev pub cat_of : ℕ → ℕ
cat_of what = (what / 256) % 8

abbrev pub mod_of : ℕ → ℕ
mod_of what = (what / 65536) % 16

abbrev pub log_error : ℕ
log_error = 3

-- `log_set_level`
unfoldable pub log_set_level : ℕ → Levels → Levels
log_set_level minlevel l =
    if not (cat_of minlevel == 0)
    then record l { cat = set l.cat (cat_of minlevel) (level_of minlevel) }
    else if not (mod_of minlevel == 0)
    then record l { mod_levels = set l.mod_levels (mod_of minlevel) (level_of minlevel) }
    else record l { minlevel = pos minlevel }

-- `level & LOG_LEVEL` of an `int`
abbrev level_bits : ℤ → ℕ
level_bits (pos n) = n % 4
level_bits (negsuc n) = 3 - n % 4

abbrev is_initial : ℤ → Bool
is_initial (negsuc zero) = true
is_initial _ = false

-- `log_init` as far as the levels go; the levels of the modules are not set.
unfoldable pub log_init : (level : ℤ) → Levels → Levels
unfolding log_set_level
log_init level l =
    if is_initial l.minlevel
    then log_set_level (level_bits level)
        (record l { minlevel = pos 0; cat = 3 ∷ 3 ∷ 3 ∷ 3 ∷ 3 ∷ 3 ∷ 3 ∷ 3 ∷ 3 ∷ [] })
    else l

-- A level against a minimal one, which may be missing or -1
abbrev at_least : ℕ → ℤ → Bool
at_least n (pos m) = leb m n
at_least n (negsuc m) = true

abbrev at_least_of : ℕ → Option ℕ → Bool
at_least_of n none = false
at_least_of n (some m) = leb m n

-- The test in front of `log_msg`
unfoldable pub passes : Levels → ℕ → Bool
passes l what =
    at_least (level_of what) l.minlevel
    || at_least_of (level_of what) (get_elem? l.cat (cat_of what))
    || at_least_of (level_of what) (get_elem? l.mod_levels (mod_of what))

pub data Logged : Type 0 where
  dropped written ended : Logged

-- `log_msg`: the process ends behind an error that was written.
unfoldable pub log_msg : Levels → ℕ → Logged
unfolding passes
log_msg l what =
    if passes l what then (if level_of what == log_error then ended else written) else dropped
