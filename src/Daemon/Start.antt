-- ===== src/Daemon/Start.antt =====
-- `service_start` of src/service.c.
pub mod Bound
pub mod Links
pub mod Unbound
pub mod Filters
pub mod Place
pub mod Filtered
use bootd.Base.{
  ℕ, ◌-◌, Bool, true, false, ◌&&◌, ◌||◌, Option, none, some, List, [], ◌∷◌, ◌++◌, ◌==◌,
  if◌then◌else◌, length, get_elem?, set, take, Text, codes,
}
use bootd.Server.State.{EtherAddr, SockAddr, Service}
use bootd.Server.Run.{need, Cmd, pure, log_err, fail_fault, get_world, ◌>>=◌, ◌>>◌}
use bootd.Server.System.{System}
use bootd.Services.Ids
use bootd.Services.Ids.{allows}
use bootd.Services.Bind.{bind_max}
use bootd.Config.Evaluate.{write_service}
use bootd.Devices.{Device, Interface, device_search_by_name}
use bootd.Listener.Registry.{listener_new_udp, listener_add}
use bootd.Daemon.Network.{Network}
use bootd.Daemon.Link.{LinkLibrary}
use bootd.Daemon.Link.New.{Held, listener_new_link}
use bootd.Daemon.Rpc.{listener_new_rpc_udp}

-- `sizeof(d->filter)` less the 0 at its end
abbrev pub filter_max : ℕ
filter_max = 4095

-- `strstr(filter, "or") != NULL`
unfoldable pub has_or : Text → Bool
has_or [] = false
has_or (c ∷ []) = false
has_or (c ∷ d ∷ cs) = c == b'o' && d == b'r' || has_or (d ∷ cs)

-- The places of a link service that the loop reads. Behind a full array lies the filter, which is
-- read as one more name.
abbrev pub names_read : Service → List Text
names_read s = if length s.devices == bind_max then s.devices ++ s.filter ∷ [] else s.devices

-- A bind address without a port gets the default port.
abbrev pub with_port : (defport : ℕ) → SockAddr → SockAddr
with_port defport a = if a.port == 0 then record a { port = defport } else a

abbrev pub with_ports : (defport : ℕ) → List SockAddr → List SockAddr
with_ports defport [] = []
with_ports defport (a ∷ rest) = with_port defport a ∷ with_ports defport rest

module _ (sys : System) where
  -- The front of a filter; the text of an address fits into `eth_buf`.
  unfoldable pub first_filter : EtherAddr → Text
  first_filter eth = take filter_max (codes "(ether dst " ++ (sys.ether_ntoa eth ++ codes ")"))

  abbrev pub filter_front : Device → Text → Text
  filter_front d [] = first_filter d.eth
  filter_front d (c ∷ cs) = c ∷ cs

  -- The two calls of `snprintf`
  unfoldable pub or_filter : (filter : Text) → Device → Device
  unfolding first_filter
  or_filter filter d =
      let front = filter_front d d.filter in
      record d { filter = front ++ take (filter_max - length front) (codes " or " ++ filter) }

  unfoldable pub filter_at : (filter : Text) → List Device → ℕ → Option Device → Cmd (List Device)
  unfolding or_filter
  filter_at filter ds i none = fail_fault
  filter_at filter ds i (some d) = pure (set ds i (or_filter filter d))

  -- Behind the lookup of a name; an unknown device ends the process.
  unfoldable pub filter_device : (filter : Text) → Option ℕ × List Device → Cmd (List Device)
  unfolding filter_at
  filter_device filter (none, ds) = log_err
  filter_device filter (some i, ds) = filter_at filter ds i (get_elem? ds i)

  module _ (interfaces : List Interface) where
    -- The loop over the devices of a link service
    unfoldable pub filter_devices : (filter : Text) → List Text → List Device → Cmd (List Device)
    unfolding filter_device device_search_by_name
    filter_devices filter [] ds = pure ds
    filter_devices filter (name ∷ names) ds = do
      found ← need (device_search_by_name interfaces name ds)
      ds' ← filter_device filter found
      filter_devices filter names ds'

    module _ (net : Network) where
      -- The loop of `l_service_start_udp`
      unfoldable pub start_binds_udp : Service → List SockAddr → Cmd (Unit {0})
      unfolding listener_new_udp listener_add
      start_binds_udp s [] = pure tt
      start_binds_udp s (a ∷ rest) = do
        l ← listener_new_udp sys a none s.service
        listener_add l
        start_binds_udp s rest

      -- Behind a full array the loop reads on.
      abbrev pub end_of : List SockAddr → Cmd (Unit {0})
      end_of rest = if length rest == bind_max then fail_fault else pure tt

      -- `l_service_start_udp`, with all ports written first
      unfoldable pub start_udp : Service → Cmd (Unit {0})
      unfolding start_binds_udp write_service
      start_udp s = do
        let binds = with_ports s.defport s.bindaddr
        write_service (record s { bindaddr = binds })
        start_binds_udp s binds
        end_of binds

      -- `l_service_start_rpc_udp`
      unfoldable pub start_binds_rpc_udp : List SockAddr → Cmd (Unit {0})
      unfolding listener_new_rpc_udp listener_add
      start_binds_rpc_udp [] = pure tt
      start_binds_rpc_udp (a ∷ rest) = do
        l ← listener_new_rpc_udp sys net a
        listener_add l
        start_binds_rpc_udp rest

      unfoldable pub start_rpc_udp : Service → Cmd (Unit {0})
      unfolding start_binds_rpc_udp
      start_rpc_udp s = do start_binds_rpc_udp s.bindaddr; end_of s.bindaddr

      -- A round of the first loop
      unfoldable pub start_one : Service → List Device → Cmd (List Device)
      start_one s ds =
          if allows s.id Ids.listen_link
          then filter_devices s.filter (names_read s) ds
          else if allows s.id Ids.listen_udp
          then (do start_udp s; pure ds)
          else if allows s.id Ids.listen_rpc_udp
          then (do start_rpc_udp s; pure ds)
          else pure ds

      unfoldable pub start_services : List Service → List Device → Cmd (List Device)
      start_services [] ds = pure ds
      start_services (s ∷ ss) ds = do ds' ← start_one s ds; start_services ss ds'

-- `l_service_start_link`
unfoldable pub start_link : LinkLibrary → Device → Held → Cmd Held
start_link lib d held =
    if has_or d.filter
    then (do
      r ← listener_new_link lib (some d.name) (some d.filter) held
      listener_add r.0
      pure r.1)
    else pure held

unfoldable pub start_filtered : LinkLibrary → Device → Text → Held → Cmd Held
start_filtered lib d [] held = pure held
start_filtered lib d (c ∷ cs) held = start_link lib d held

-- The loop over the devices
unfoldable pub start_links : LinkLibrary → List Device → Held → Cmd Held
start_links lib [] held = pure held
start_links lib (d ∷ ds) held = do
  held' ← start_filtered lib d d.filter held
  start_links lib ds held'

-- `service_start`, with the list of devices and the open handles before and behind it
unfoldable pub service_start :
    System → List Interface → Network → LinkLibrary → List Device → Held → Cmd (List Device × Held)
service_start sys interfaces net lib ds held = do
  w ← get_world
  ds' ← start_services sys interfaces net w.l_services ds
  held' ← start_links lib ds' held
  pure (ds', held')
