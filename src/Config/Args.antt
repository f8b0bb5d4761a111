-- ===== src/Config/Args.antt =====
-- The command line and `conf_file` in src/conf.c.
pub mod Last
use bootd.Base.{
  ℕ, zero, suc, ◌||◌, Bool, not, Option, none, some, List, [], ◌∷◌, if◌then◌else◌, ℤ, pos, negsuc,
  Text, codes, strcmp_eq,
}
use bootd.Server.Run.{Cmd, done, pure, exited, fault, hang, log_err, ◌>>=◌, ◌>>◌}
use bootd.Server.System.{System}
use bootd.Strings.Words.{str_get_loglevel}
use bootd.Devices.{Device, Interface}
use bootd.Config.Scanner.{Reads}
use bootd.Config.Parser.{Entries, Parsed, parse_file}
use bootd.Config.Parser as Parser
use bootd.Config.Values.{Basic}
use bootd.Config.Evaluate.{eval_conf}

-- What getopt returns for "c:hl:f:"; `unknown` is every other character.
pub data Arg : Type 0 where
  config : Text → Arg
  help : Arg
  loglevel : Text → Arg
  logfile : Text → Arg
  unknown : Arg

-- `c_file`, and the local variables of `conf_args`
pub record Args : Type 0 where
  pub c_file : Option Text
  pub level : ℤ
  pub file : Option Text

-- `usage`, which ends the process, is `none`.
unfoldable pub with_level : Option ℕ → Args → Option Args
with_level none a = none
with_level (some n) a = some (record a { level = pos n })

unfoldable pub conf_arg : Arg → Args → Option Args
unfolding with_level str_get_loglevel
conf_arg (config path) a = some (record a { c_file = some path })
conf_arg help a = none
conf_arg (loglevel w) a = with_level (str_get_loglevel (some w)) a
conf_arg (logfile path) a = some (record a { file = some path })
conf_arg unknown a = none

-- The loop over the options
unfoldable pub conf_args_loop : List Arg → Option Args → Option Args
unfolding conf_arg
conf_args_loop [] a = a
conf_args_loop (o ∷ os) none = none
conf_args_loop (o ∷ os) (some a) = conf_args_loop os (conf_arg o a)

abbrev is_unset : ℤ → Option Text → Bool
is_unset (negsuc zero) none = Bool.true
is_unset _ _ = Bool.false

-- The arguments of the call of `log_init`, if it is made
abbrev pub log_call : Args → Option (ℤ × Option Text)
log_call a = if is_unset a.level a.file then none else some (a.level, a.file)

abbrev pub args_result : Option Args → Option (Option Text × Option (ℤ × Option Text))
args_result none = none
args_result (some a) = some (a.c_file, log_call a)

-- `conf_args`: `none` where `usage` ends the process, else `c_file` and the call of `log_init`
unfoldable pub conf_args : List Arg → Option (Option Text × Option (ℤ × Option Text))
unfolding conf_args_loop
conf_args os =
    args_result (conf_args_loop os (some (record { c_file = none; level = negsuc 0; file = none })))

-- What the parser comes to, as what the process comes to. Fuel that is too small counts as a hang.
unfoldable pub parsed : Parsed Entries → Cmd Entries
parsed (Parser.done es p) = pure es
parsed Parser.exited = log_err
parsed Parser.fault = λ w. fault
parsed Parser.hang = λ w. hang
parsed Parser.no_fuel = λ w. hang

-- What `conf_file` leaves: the calls of `log_init`, the variables and the devices
abbrev pub Configured : Type 0
Configured = ((Option (ℕ × Option Text)) × Basic) × List Device

module _ (sys : System) (interfaces : List Interface) (getservbyname : Text → Option ℕ)
    (open_config : Text → Option Reads) (fuel : ℕ) where
  -- Behind `open`; a file that cannot be opened ends the process.
  unfoldable pub conf_opened :
      (filename : Text) → Option Reads → Basic → List Device → Cmd Configured
  unfolding parsed
  conf_opened filename none b ds = log_err
  conf_opened filename (some reads) b ds = do
    root ← parsed (parse_file fuel filename reads)
    x ← eval_conf sys interfaces getservbyname b ds root
    pure ((some x.0.0, x.0.1), x.1)

  -- `conf_file`
  unfoldable pub conf_file : (filename : Option Text) → Basic → List Device → Cmd Configured
  unfolding conf_opened
  conf_file none b ds = pure ((none, b), ds)
  conf_file (some filename) b ds = conf_opened filename (open_config filename) b ds
