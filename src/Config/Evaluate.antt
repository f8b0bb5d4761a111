-- ===== src/Config/Evaluate.antt =====
-- `i_eval_services` of src/conf.c, and the order of the evaluators in `conf_file`.
use bootd.Base.{ℕ, Bool, ◌||◌, Option, none, List, [], ◌∷◌, ◌==◌, if◌then◌else◌, Text, codes}
use bootd.Server.State.{Service}
use bootd.Server.Run.{Cmd, done, pure, get_world, ◌>>=◌, ◌>>◌}
use bootd.Server.System.{System}
use bootd.Services.Ids
use bootd.Services.Ids.{allows}
use bootd.Services.Table.{service_search_by_id}
use bootd.Services.Names.{str_get_service}
use bootd.Services.Bind.{service_link_add, service_udp_add}
use bootd.Devices.{Device, Interface}
use bootd.Config.Parser.{Entries}
use bootd.Config.Lookup.{Found, assure_no_entry, the_value, each_get}
use bootd.Config.Values.{expected, Basic, eval_basic}
use bootd.Config.Hosts.{eval_log_msg, eval_hosts}

-- `LISTEN_LINK`, and `LISTEN_UDP` with `LISTEN_RPC_UDP`
abbrev listens_link : ℕ → Bool
listens_link id = allows id Ids.rarp || allows id Ids.mop || allows id Ids.rmp

abbrev listens_udp : ℕ → Bool
listens_udp id = allows id Ids.dhcp || allows id Ids.tftp || allows id Ids.bootparam

-- The writes to a service go to its place in the list.
unfoldable pub replace_service : Service → List Service → List Service
replace_service s [] = []
replace_service s (n ∷ ns) =
    let rest = replace_service s ns in if n.id == s.id then s ∷ ns else n ∷ rest

unfoldable pub write_service : Service → Cmd (Unit {0})
unfolding replace_service
write_service s w = done tt (record w { l_services = replace_service s w.l_services })

-- A service and the devices, as the loops over values leave them
abbrev pub Binding : Type 0
Binding = Service × List Device

module _ (sys : System) (interfaces : List Interface) (getservbyname : Text → Option ℕ) where
  -- The values of an entry `device`; one that fails is warned of.
  unfoldable pub add_devices : List Text → Binding → Cmd Binding
  unfolding service_link_add
  add_devices [] x = pure x
  add_devices (v ∷ vs) x = do
    b ← service_link_add sys interfaces x.0 v x.1
    add_devices vs (b.0.1, b.1)

  -- The values of an entry `bind`
  unfoldable pub add_binds : List Text → Binding → Cmd Binding
  unfolding service_udp_add
  add_binds [] x = pure x
  add_binds (v ∷ vs) x = do
    b ← service_udp_add sys interfaces getservbyname x.0 v x.1
    add_binds vs (b.0.1, b.1)

  unfoldable pub bind_service : Entries → Binding → Cmd (Binding × Entries)
  unfolding each_get add_devices add_binds
  bind_service sub x =
      if listens_link x.0.id
      then each_get (codes "device") (λ f y. add_devices f.values y) sub x
      else if listens_udp x.0.id
      then each_get (codes "bind") (λ f y. add_binds f.values y) sub x
      else pure (x, sub)

  -- A round of `i_eval_services`; what else its block holds is not looked at.
  unfoldable pub eval_service : Found → List Device → Cmd (List Device)
  unfolding the_value str_get_service service_search_by_id bind_service write_service
  eval_service e ds = do
    v ← the_value e.values
    w ← get_world
    id ← expected (str_get_service w.l_services v 0)
    s ← expected (service_search_by_id id w.l_services)
    x ← bind_service e.sub (s, ds)
    write_service x.0.0
    pure x.0.1

  -- `i_eval_services`
  unfoldable pub eval_services : Entries → List Device → Cmd (List Device × Entries)
  unfolding each_get eval_service
  eval_services root ds = each_get (codes "service") eval_service root ds

  -- What `conf_file` does with the entries that the parser returned: the arguments of `log_init`,
  -- the variables, and the devices.
  unfoldable pub eval_conf :
      Basic → List Device → Entries → Cmd (((ℕ × Option Text) × Basic) × List Device)
  unfolding eval_log_msg eval_basic eval_services eval_hosts assure_no_entry
  eval_conf b ds root = do
    log ← eval_log_msg root
    basic ← eval_basic b log.1
    services ← eval_services basic.1 ds
    rest ← eval_hosts sys services.1
    assure_no_entry none rest
    pure ((log.0, basic.0), services.0)
