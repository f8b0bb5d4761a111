-- ===== src/Config/Hosts.antt =====
-- `i_eval_hosts`, `i_eval_host_files` and `i_eval_log_msg` of src/conf.c.
use bootd.Base.{ℕ, zero, suc, true, false, Option, none, some, List, [], ◌∷◌, ◌++◌, Text, codes}
use bootd.Server.State.{File}
use bootd.Server.Run.{Cmd, pure, need, ◌>>=◌, ◌>>◌}
use bootd.Server.System.{System}
use bootd.Host.Memory.{read_host, write_host}
use bootd.Host.Add.{host_new, host_add}
use bootd.Host.Files.{host_file_add}
use bootd.Config.Parser.{Entries}
use bootd.Config.Lookup.{Found, Get, entry_get, assure_no_entry, own_value, single_value, each_get}
use bootd.Config.Values.{get_string, get_own_string, get_service, get_loglevel, get_ether, get_ip}

-- `FILE_ALIASES_MAX`
abbrev aliases_max : ℕ
aliases_max = 10

-- An alias goes to the next unused place; without one that place stays empty.
abbrev add_alias : List Text → Option Text → List Text
add_alias aliases none = aliases
add_alias aliases (some a) = aliases ++ a ∷ []

-- The loop over the places for aliases. Once no alias is found no later round finds one.
unfoldable pub get_aliases : (rounds : ℕ) → Entries → List Text → Cmd (List Text × Entries)
unfolding get_string
get_aliases zero root aliases = pure (aliases, root)
get_aliases (suc n) root aliases = do
  x ← get_string root (codes "alias") none false
  get_aliases n x.1 (add_alias aliases x.0)

-- The file that an entry describes
unfoldable pub eval_file : Found → Cmd File
unfolding get_string get_own_string get_service get_aliases own_value assure_no_entry
eval_file e = do
  own ← get_own_string (own_value e.values) none
  path ← get_string e.sub (codes "path") own true
  name ← get_string path.1 (codes "name") none true
  service ← get_service name.1 (codes "service") 0
  aliases ← get_aliases aliases_max service.1 []
  assure_no_entry (some (codes "alias")) aliases.1
  server ← get_string aliases.1 (codes "server") none true
  assure_no_entry none server.1
  pure (record {
    path = path.0;
    name = name.0;
    server = server.0;
    aliases = aliases.0;
    service = service.0;
  })

-- `i_eval_host_files`, for the host at `p`
unfoldable pub eval_host_files : (p : ℕ) → Entries → Cmd Entries
unfolding each_get eval_file host_file_add
eval_host_files p root = do
  x ← each_get (codes "file") (λ e s. eval_file e >>= host_file_add p) root tt
  pure x.1

module _ (sys : System) where
  -- The host that an entry describes
  unfoldable pub eval_host : Found → Cmd (Unit {0})
  unfolding host_new get_string get_own_string own_value get_ether get_ip get_service
      eval_host_files host_add assure_no_entry
  eval_host e = do
    p ← host_new
    own ← get_own_string (own_value e.values) none
    name ← get_string e.sub (codes "name") own true
    h1 ← read_host p
    eth ← get_ether sys name.1 (codes "ether") h1.eth true
    ip ← get_ip sys eth.1 (codes "ip") h1.ip true
    service ← get_service ip.1 (codes "service") h1.service
    write_host p (record h1 { name = name.0; eth = eth.0; ip = ip.0; service = service.0 })
    rest ← eval_host_files p service.1
    assure_no_entry none rest
    host_add sys p

  -- `i_eval_hosts`
  unfoldable pub eval_hosts : Entries → Cmd Entries
  unfolding each_get eval_host
  eval_hosts root = do x ← each_get (codes "host") (λ e s. eval_host e) root tt; pure x.1

-- What the block of the entry `log` says, `level` 0 and no file where it is silent
unfoldable pub eval_log : Found → Cmd (ℕ × Option Text)
unfolding single_value get_loglevel assure_no_entry
eval_log e = do
  file ← single_value (codes "file") true e.sub
  level ← get_loglevel file.1 (codes "level") 0 true
  assure_no_entry none level.1
  pure (level.0, file.0)

-- `i_eval_log_msg` as far as its call of `log_init`: the level and the file that it passes, and
-- the entries it leaves.
unfoldable pub eval_log_found : Entries → Get → Cmd ((ℕ × Option Text) × Entries)
unfolding eval_log assure_no_entry
eval_log_found root none = pure ((0, none), root)
eval_log_found root (some (e, marked)) = do
  assure_no_entry (some (codes "log")) marked
  x ← eval_log e
  pure (x, marked)

unfoldable pub eval_log_msg : Entries → Cmd ((ℕ × Option Text) × Entries)
unfolding entry_get eval_log_found
eval_log_msg root = do found ← need (entry_get (some (codes "log")) root); eval_log_found root found
