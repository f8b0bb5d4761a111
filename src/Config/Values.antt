-- ===== src/Config/Values.antt =====
-- The getters of src/conf.c: a value of the configuration, read as text, truth value, integer,
-- address, service or log level. `dst` is what stood there before.
pub mod Numbers
pub mod Decimal
use bootd.Base.{
  ℕ, zero, suc, Bool, true, Option, none, some, List, [], ◌∷◌, if◌then◌else◌, Text, codes, ℤ, pos,
}
use bootd.Server.State.{EtherAddr, IpAddr, World}
use bootd.Server.Run.{Cmd, done, pure, log_err, get_world, ◌>>=◌, ◌>>◌}
use bootd.Server.System.{System}
use bootd.Strings.Words.{str_get_bool, str_get_loglevel}
use bootd.Services.Names.{str_get_service}
use bootd.Util.Resolve.{truth, util_name2ether, util_name2ip}
use bootd.Config.Parser.{Entries}
use bootd.Config.Lookup.{single_value, each_get}
use bootd.Config.Values.Numbers.{str_get_int}

-- What a getter does with the value that was found, if there is one: `dst` is left alone without.
abbrev pub with_value :
    {A : Type 0} → A → (Text → Cmd A) → Option Text × Entries → Cmd (A × Entries)
with_value dst read (none, root) = pure (dst, root)
with_value dst read (some v, root) = do x ← read v; pure (x, root)

-- A value that the library has read, an error where it has not
abbrev pub expected : {A : Type 0} → Option A → Cmd A
expected none = log_err
expected (some x) = pure x

-- Where something stands already, it is an error.
unfoldable pub set_once : Option Text → Text → Cmd (Option Text)
set_once none v = pure (some v)
set_once (some old) v = log_err

-- `i_get_string` of an entry of that name
unfoldable pub get_string :
    Entries → Text → Option Text → (single : Bool) → Cmd (Option Text × Entries)
unfolding single_value set_once
get_string root name dst single = single_value name single root >>= with_value dst (set_once dst)

-- `i_get_string` of the entry itself
unfoldable pub get_own_string : Option Text → Option Text → Cmd (Option Text)
unfolding set_once
get_own_string none dst = pure dst
get_own_string (some v) dst = set_once dst v

-- `i_get_bool`
unfoldable pub get_bool : Entries → Text → ℤ → (single : Bool) → Cmd (ℤ × Entries)
unfolding single_value str_get_bool
get_bool root name dst single =
    single_value name single root
    >>= with_value dst (λ v. expected (str_get_bool (some v)) >>= λ b. pure (pos b))

-- `i_get_int`
unfoldable pub get_int : Entries → Text → ℤ → (single : Bool) → Cmd (ℤ × Entries)
unfolding single_value str_get_int
get_int root name dst single =
    single_value name single root >>= with_value dst (λ v. expected (str_get_int v))

-- `i_get_loglevel`
unfoldable pub get_loglevel : Entries → Text → ℕ → (single : Bool) → Cmd (ℕ × Entries)
unfolding single_value str_get_loglevel
get_loglevel root name dst single =
    single_value name single root >>= with_value dst (λ v. expected (str_get_loglevel (some v)))

-- The services that an entry lists, added to `dst`; each must be known.
unfoldable pub add_services : List Text → ℕ → Cmd ℕ
unfolding str_get_service
add_services [] dst = pure dst
add_services (v ∷ vs) dst = do
  w ← get_world
  next ← expected (str_get_service w.l_services v dst)
  add_services vs next

-- `i_get_service`
unfoldable pub get_service : Entries → Text → ℕ → Cmd (ℕ × Entries)
unfolding each_get add_services
get_service root name dst = each_get name (λ f s. add_services f.values s) root dst

module _ (sys : System) where
  unfoldable pub read_ether : Text → Cmd EtherAddr
  unfolding util_name2ether
  read_ether v = elim (sys.ether_aton v) [
    | some eth ↦ pure eth
    | none ↦ do
      w ← get_world
      if truth w.c_resolve_ether then (util_name2ether sys v >>= expected) else log_err
  ]

  -- `i_get_ether`
  unfoldable pub get_ether :
      Entries → Text → EtherAddr → (single : Bool) → Cmd (EtherAddr × Entries)
  unfolding single_value read_ether
  get_ether root name dst single = single_value name single root >>= with_value dst read_ether

  unfoldable pub read_ip : Text → Cmd IpAddr
  unfolding util_name2ip
  read_ip v = elim (sys.inet_aton v) [
    | some ip ↦ pure ip
    | none ↦ do w ← get_world; if truth w.c_resolve_ip then util_name2ip sys v else log_err
  ]

  -- `i_get_ip`
  unfoldable pub get_ip : Entries → Text → IpAddr → (single : Bool) → Cmd (IpAddr × Entries)
  unfolding single_value read_ip
  get_ip root name dst single = single_value name single root >>= with_value dst read_ip

-- `c_chroot` and `c_directory`
pub record Basic : Type 0 where
  pub c_chroot : Option Text
  pub c_directory : Option Text

-- A write to a global
abbrev modify : (World → World) → Cmd (Unit {0})
modify f w = done tt (f w)

-- `i_eval_basic`
unfoldable pub eval_basic : Basic → Entries → Cmd (Basic × Entries)
unfolding get_string get_bool get_int
eval_basic b root = do
  x1 ← get_string root (codes "chroot") b.c_chroot true
  x2 ← get_string x1.1 (codes "directory") b.c_directory true
  w3 ← get_world
  x3 ← get_bool x2.1 (codes "resolve_ether") w3.c_resolve_ether true
  modify (λ w. record w { c_resolve_ether = x3.0 })
  w4 ← get_world
  x4 ← get_bool x3.1 (codes "resolve_ip") w4.c_resolve_ip true
  modify (λ w. record w { c_resolve_ip = x4.0 })
  w5 ← get_world
  x5 ← get_int x4.1 (codes "session_max") w5.c_session_max true
  modify (λ w. record w { c_session_max = x5.0 })
  w6 ← get_world
  x6 ← get_int x5.1 (codes "session_timeout") w6.c_session_timeout true
  modify (λ w. record w { c_session_timeout = x6.0 })
  pure (record { c_chroot = x1.0; c_directory = x2.0 }, x6.1)
