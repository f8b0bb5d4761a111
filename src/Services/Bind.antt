-- ===== src/Services/Bind.antt =====
-- The devices and addresses of a service in src/service.c. A service has `SERVICE_BIND_MAX` places
-- for them; the places in use come first.
pub mod Filled
pub mod Links
use bootd.Base.{
  ℕ, zero, suc, ◌+◌, ◌-◌, ◌%◌, Bool, true, false, ◌&&◌, ◌||◌, Option, none, some, List, [], ◌∷◌,
  ◌++◌, ltb, if◌then◌else◌, length, get_elem?, Text, codes, strcmp_eq, ℤ, pos, negsuc,
}
use bootd.Server.State.{EtherAddr, IpAddr, Service}
use bootd.Server.Run.{Cmd, pure, need, fail_fault, ◌>>=◌, ◌>>◌}
use bootd.Server.System.{System}
use bootd.Util.Resolve.{util_ip_valid, util_name2ether, util_name2ip}
use bootd.Devices.{Device, Interface, device_search_by_name, device_search_by_eth}
use bootd.Strings.Hostport.{split, refused, fault, str_get_hostport}
use bootd.Config.Values.Numbers.{str_get_int}

-- `SERVICE_BIND_MAX`
abbrev pub bind_max : ℕ
bind_max = 16

-- Whether it worked, and the service behind it: `l_service_link_device_add`
unfoldable pub link_device_add : Service → Device → Bool × Service
link_device_add s d =
    if ltb (length s.devices) bind_max
    then (true, record s { devices = s.devices ++ d.name ∷ [] })
    else (false, s)

-- The loop over all devices: every one is tried.
unfoldable pub link_devices_add : Service → List Device → Bool × Service
unfolding link_device_add
link_devices_add s [] = (true, s)
link_devices_add s (d ∷ ds) =
    let rest = link_devices_add (link_device_add s d).1 ds in
    ((link_device_add s d).0 && rest.0, rest.1)

-- `l_service_udp_ip_add`
unfoldable pub udp_ip_add : Service → IpAddr → (port : ℕ) → Bool × Service
udp_ip_add s ip port =
    if ltb (length s.bindaddr) bind_max
    then (true, record s { bindaddr = s.bindaddr ++ record { addr = ip; port = port } ∷ [] })
    else (false, s)

-- The loop over the addresses of a device, of which 0 is unused
unfoldable pub udp_ips_add : Service → List IpAddr → (port : ℕ) → Bool × Service
unfolding udp_ip_add
udp_ips_add s [] port = (true, s)
udp_ips_add s (ip ∷ ips) port =
    let added = udp_ips_add (udp_ip_add s ip port).1 ips port in
    let skipped = udp_ips_add s ips port in
    if util_ip_valid ip then ((udp_ip_add s ip port).0 && added.0, added.1) else skipped

-- `l_service_udp_device_add`
unfoldable pub udp_device_add : Service → Device → (port : ℕ) → Bool × Service
unfolding udp_ips_add
udp_device_add s d port = udp_ips_add s d.ip port

-- `htons` of an `int`, as a port in host order
unfoldable pub to_port : ℤ → ℕ
to_port (pos n) = n % 65536
to_port (negsuc n) = 65535 - n % 65536

-- What the calls below return: whether it worked, the service, and the devices.
abbrev pub Bound : Type 0
Bound = (Bool × Service) × List Device

abbrev pub device_at : List Device → Option ℕ → Option Device
device_at ds none = none
device_at ds (some i) = get_elem? ds i

abbrev pub link_device : Option Device → Service → Bool × Service
unfolding link_device_add
link_device none s = (false, s)
link_device (some d) s = link_device_add s d

module _ (sys : System) (interfaces : List Interface) where
  -- A lookup of the address as a host name found this.
  unfoldable pub link_again : Service → List Device → EtherAddr → Option EtherAddr → Cmd Bound
  unfolding device_search_by_eth link_device_add
  link_again s ds eth (some again) = pure ((false, s), ds)
  link_again s ds eth none = do
    found ← need (device_search_by_eth interfaces eth ds)
    pure (link_device (device_at found.1 found.0) s, found.1)

  -- Behind a lookup by name that found nothing, by what the text reads as. An address that is read
  -- is looked up as a host name once more, and `||` makes a success of that lookup a failure.
  unfoldable pub link_by_eth : Service → Text → List Device → Option EtherAddr → Cmd Bound
  unfolding link_again
  link_by_eth s device ds none = pure ((false, s), ds)
  link_by_eth s device ds (some eth) = do
    again ← util_name2ether sys device
    link_again s ds eth again

  unfoldable pub link_named : Service → Text → List Device → Option Device → Cmd Bound
  unfolding link_by_eth link_device_add
  link_named s device ds (some d) = pure (link_device_add s d, ds)
  link_named s device ds none = link_by_eth s device ds (sys.ether_aton device)

  -- `service_link_add`. For `*` and `all` the list is taken as it is, also where it is not yet
  -- initialised.
  unfoldable pub service_link_add : Service → Text → List Device → Cmd Bound
  unfolding link_devices_add link_named device_search_by_name
  service_link_add s device ds =
      if strcmp_eq device (codes "*") || strcmp_eq device (codes "all")
      then pure (link_devices_add s ds, ds)
      else (do
        found ← need (device_search_by_name interfaces device ds)
        link_named s device found.1 (device_at found.1 found.0))

  -- The port of a bind specification, in host order; `getservbyname` is the library's table.
  unfoldable pub bind_port : (getservbyname : Text → Option ℕ) → Text → Option ℕ
  unfolding str_get_int to_port
  bind_port getservbyname port = elim (str_get_int port) [
    | some n ↦ some (to_port n)
    | none ↦ getservbyname port
  ]

  -- What was found for the host, if it is an ethernet address, and if it is the name of a device
  unfoldable pub bind_eth : Service → (port : ℕ) → Option ℕ × List Device → Cmd Bound
  unfolding udp_device_add
  bind_eth s port found = elim (device_at found.1 found.0) [
    | none ↦ pure ((false, s), found.1)
    | some d ↦ pure (udp_device_add s d port, found.1)
  ]

  unfoldable pub bind_named :
      Service → (host : Text) → (port : ℕ) → Option ℕ × List Device → Cmd Bound
  unfolding udp_device_add udp_ip_add
  bind_named s host port found = elim (device_at found.1 found.0) [
    | some d ↦ pure (udp_device_add s d port, found.1)
    | none ↦ do ip ← util_name2ip sys host; pure (udp_ip_add s ip port, found.1)
  ]

  -- The host of a bind specification: nothing, an address, an ethernet address, a device, a name.
  unfoldable pub bind_host : Service → (host : Text) → (port : ℕ) → List Device → Cmd Bound
  unfolding udp_ip_add bind_eth bind_named device_search_by_eth device_search_by_name
  bind_host s [] port ds = pure (udp_ip_add s 0 port, ds)
  bind_host s (c ∷ cs) port ds = elim (sys.inet_aton (c ∷ cs)) [
    | some ip ↦ pure (udp_ip_add s ip port, ds)
    | none ↦ elim (sys.ether_aton (c ∷ cs)) [
      | some eth ↦ need (device_search_by_eth interfaces eth ds) >>= bind_eth s port
      | none ↦ need (device_search_by_name interfaces (c ∷ cs) ds) >>= bind_named s (c ∷ cs) port
    ]
  ]

  -- `service_udp_add`
  unfoldable pub service_udp_add :
      (getservbyname : Text → Option ℕ) → Service → Text → List Device → Cmd Bound
  unfolding str_get_hostport bind_port bind_host
  service_udp_add getservbyname s bind ds = elim (str_get_hostport sys.inet_aton bind) [
    | refused ↦ pure ((false, s), ds)
    | fault ↦ fail_fault
    | split host port ↦ elim (bind_port getservbyname port) [
      | none ↦ pure ((false, s), ds)
      | some p ↦ bind_host s host p ds
    ]
  ]
