-- ===== src/Config/Args/Last.antt =====
-- `conf_args` against the last option of each kind.
use bootd.Base.{
  ℕ, ◌≡◌, refl, sym, ◌∙◌, ap, Bool, true, false, ◌||◌, Option, none, some, List, [], ◌∷◌,
  if◌then◌else◌, ℤ, pos, negsuc, Text, Option-cases, inl, inr, Bool-cases,
}
use bootd.Strings.Words.{str_get_loglevel}
use bootd.Config.Args.{
  Arg, config, help, loglevel, logfile, unknown, Args, with_level, conf_arg, conf_args_loop,
  conf_args, log_call,
}

-- What an option says of the file, the level and the log file
abbrev pub config_of : Arg → Option Text
config_of (config path) = some path
config_of help = none
config_of (loglevel w) = none
config_of (logfile path) = none
config_of unknown = none

abbrev pub level_of : Arg → Option ℕ
level_of (config path) = none
level_of help = none
level_of (loglevel w) = str_get_loglevel (some w)
level_of (logfile path) = none
level_of unknown = none

abbrev pub logfile_of : Arg → Option Text
logfile_of (config path) = none
logfile_of help = none
logfile_of (loglevel w) = none
logfile_of (logfile path) = some path
logfile_of unknown = none

abbrev is_none : Option ℕ → Bool
is_none none = true
is_none (some n) = false

-- The options that end in `usage`
abbrev pub asks_usage : Arg → Bool
asks_usage (config path) = false
asks_usage help = true
asks_usage (loglevel w) = is_none (str_get_loglevel (some w))
asks_usage (logfile path) = false
asks_usage unknown = true

abbrev pub any_usage : List Arg → Bool
any_usage [] = false
any_usage (o ∷ os) = asks_usage o || any_usage os

module _ {ℓ} {A : Type ℓ} where
  abbrev pub or_else : Option A → Option A → Option A
  or_else none d = d
  or_else (some x) d = some x

  -- The last option that says something
  abbrev pub last_of : (Arg → Option A) → List Arg → Option A
  last_of f [] = none
  last_of f (o ∷ os) = or_else (last_of f os) (f o)

  or_else_assoc : (x y d : Option A) → or_else (or_else x y) d ≡ or_else x (or_else y d)
  or_else_assoc none y d = refl
  or_else_assoc (some x) y d = refl

  or_else-none : (x : Option A) → or_else x none ≡ x
  or_else-none none = refl
  or_else-none (some x) = refl

abbrev pub level_or : Option ℕ → ℤ → ℤ
level_or none d = d
level_or (some n) d = pos n

level_or_assoc : (x y : Option ℕ) (d : ℤ) → level_or (or_else x y) d ≡ level_or x (level_or y d)
level_or_assoc none y d = refl
level_or_assoc (some x) y d = refl

-- The variables behind these options
abbrev pub args_of : List Arg → Args → Args
args_of os a = record {
  c_file = or_else (last_of config_of os) a.c_file;
  level = level_or (last_of level_of os) a.level;
  file = or_else (last_of logfile_of os) a.file;
}

-- One option in front
abbrev stepped : Arg → Args → Args
stepped o a = record {
  c_file = or_else (config_of o) a.c_file;
  level = level_or (level_of o) a.level;
  file = or_else (logfile_of o) a.file;
}

args_of-cons : (o : Arg) (os : List Arg) (a : Args) → args_of (o ∷ os) a ≡ args_of os (stepped o a)
args_of-cons o os a =
    let e1 = or_else_assoc (last_of config_of os) (config_of o) a.c_file in
    let e2 = level_or_assoc (last_of level_of os) (level_of o) a.level in
    let e3 = or_else_assoc (last_of logfile_of os) (logfile_of o) a.file in cc

conf_arg-stepped :
    (o : Arg) (a : Args) → conf_arg o a ≡ (if asks_usage o then none else some (stepped o a))
unfolding conf_arg with_level
conf_arg-stepped (config path) a = refl
conf_arg-stepped help a = refl
conf_arg-stepped (loglevel w) a = elim (Option-cases (str_get_loglevel (some w))) [
  | inl e ↦ simp e
  | inr (n, e) ↦ simp e
]
conf_arg-stepped (logfile path) a = refl
conf_arg-stepped unknown a = refl

conf_args_loop-none : (os : List Arg) → conf_args_loop os none ≡ none
unfolding conf_args_loop
conf_args_loop-none [] = refl
conf_args_loop-none (o ∷ os) = refl

conf_args_loop-args_of :
    (os : List Arg) (a : Args)
    → conf_args_loop os (some a) ≡ (if any_usage os then none else some (args_of os a))
unfolding conf_args_loop
conf_args_loop-args_of [] a = refl
conf_args_loop-args_of (o ∷ os) a = elim (Bool-cases (asks_usage o)) [
  | inl y ↦ simp (conf_arg-stepped o a, y, conf_args_loop-none os)
  | inr n ↦
      simp (conf_arg-stepped o a, n)
        (conf_args_loop-args_of os (stepped o a)
          ∙ ap (λ x. if any_usage os then none else some x) (sym (args_of-cons o os a)))
]

-- The call of `log_init`, by the level and the file that the options name: none without either,
-- and -1 for a level that no option names
abbrev pub init_call : Option ℕ → Option Text → Option (ℤ × Option Text)
init_call none none = none
init_call none (some file) = some (negsuc 0, some file)
init_call (some n) file = some (pos n, file)

log_call-init_call :
    (c : Option Text) (n : Option ℕ) (file : Option Text)
    → log_call (record { c_file = c; level = level_or n (negsuc 0); file = file })
      ≡ init_call n file
log_call-init_call c none none = refl
log_call-init_call c none (some f) = refl
log_call-init_call c (some n) none = refl
log_call-init_call c (some n) (some f) = refl

-- conf_args ends in usage exactly where an option is -h, none that getopt knows, or names no level;
-- else the configuration file, the level and the log file are those of the last option of each
-- kind, and log_init is called exactly where an option names a level or a log file, with -1 for a level that
-- none names.
pub conf_args-last :
    (os : List Arg)
    → conf_args os ≡ (
        if any_usage os
        then none
        else some (last_of config_of os, init_call (last_of level_of os) (last_of logfile_of os)))
unfolding conf_args
conf_args-last os =
    let start : Args = record { c_file = none; level = negsuc 0; file = none } in
    let e1 = or_else-none (last_of config_of os) in
    let e3 = or_else-none (last_of logfile_of os) in
    elim (Bool-cases (any_usage os)) [
      | inl y ↦ simp (conf_args_loop-args_of os start, y)
      | inr n ↦
          simp (conf_args_loop-args_of os start, n, e1, e3)
            (ap (λ c. some (last_of config_of os, c))
              (log_call-init_call (last_of config_of os) (last_of level_of os)
                (last_of logfile_of os)))
    ]
