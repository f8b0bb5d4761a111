-- ===== src/Devices.antt =====
-- src/device.c: the list of network interfaces and the lookups in it. `l_devices` is kept in the
-- order of its `next` pointers, and a device is its place in it. Netmasks, broadcast addresses and
-- the flags of a device are left out, as no code reads them.
pub mod Distinct
use bootd.Base.{
  ℕ, suc, Bool, true, false, not, ◌||◌, Option, none, some, List, [], ◌∷◌, ◌++◌, ◌==◌,
  if◌then◌else◌, length, get_elem?, set, bit_and, Text, strcmp_eq,
}
use bootd.Server.State.{EtherAddr, IpAddr}
use bootd.Util.Resolve.{util_ip_valid}

-- `ip` has a place for each of `DEVICE_IP_ADDRS_MAX` addresses, 0 where it is unused.
pub record Device : Type 0 where
  pub name : Text
  pub eth : EtherAddr
  pub ip : List IpAddr
  pub filter : Text

-- An entry of `getifaddrs`: `ifa_name`, `ifa_flags` and `ifa_addr`, which may be null.
pub data Address : Type 0 where
  inet : IpAddr → Address
  link : EtherAddr → Address
  other_family : Address
  null_addr : Address

pub record Interface : Type 0 where
  pub name : Text
  pub flags : ℕ
  pub addr : Address

-- `IFF_UP` and `IFF_LOOPBACK`
abbrev is_up : Interface → Bool
is_up n = not (bit_and n.flags 1 == 0)

abbrev is_loopback : Interface → Bool
is_loopback n = not (bit_and n.flags 8 == 0)

abbrev pub device_new : Text → Device
device_new name = record {
  name = name;
  eth = 0 ∷ 0 ∷ 0 ∷ 0 ∷ 0 ∷ 0 ∷ [];
  ip = 0 ∷ 0 ∷ 0 ∷ 0 ∷ 0 ∷ 0 ∷ 0 ∷ 0 ∷ 0 ∷ 0 ∷ 0 ∷ 0 ∷ 0 ∷ 0 ∷ 0 ∷ 0 ∷ [];
  filter = [];
}

abbrev pub taken : Text → List Device → Bool
taken name [] = false
taken name (n ∷ ns) = strcmp_eq n.name name || taken name ns

unfoldable pub device_add : Device → List Device → List Device
device_add d ds = if taken d.name ds then ds else ds ++ d ∷ []

abbrev pub onward : Option ℕ → Option ℕ
onward none = none
onward (some i) = some (suc i)

-- The walks of the lookups
unfoldable pub find_name : Text → List Device → Option ℕ
find_name name [] = none
find_name name (n ∷ ns) =
    let rest = find_name name ns in if strcmp_eq n.name name then some 0 else onward rest

abbrev pub same_ether : EtherAddr → EtherAddr → Bool
same_ether = strcmp_eq

unfoldable pub find_eth : EtherAddr → List Device → Option ℕ
find_eth eth [] = none
find_eth eth (n ∷ ns) =
    let rest = find_eth eth ns in if same_ether n.eth eth then some 0 else onward rest

-- An address goes to the first unused place, if there is one.
unfoldable pub put_ip : IpAddr → List IpAddr → List IpAddr
put_ip ip [] = []
put_ip ip (x ∷ xs) = let rest = put_ip ip xs in if util_ip_valid x then x ∷ rest else ip ∷ xs

abbrev with_address : Address → Device → Device
with_address (inet ip) d = if util_ip_valid ip then record d { ip = put_ip ip d.ip } else d
with_address (link eth) d = record d { eth = eth }
with_address other_family d = d
with_address null_addr d = d

abbrev is_null : Address → Bool
is_null (inet ip) = false
is_null (link eth) = false
is_null other_family = false
is_null null_addr = true

abbrev placed : (i : ℕ) → Address → List Device → List Device
placed i addr ds = elim (get_elem? ds i) [ none ↦ ds | some d ↦ set ds i (with_address addr d) ]

-- The switch over the family, `none` where it reads through a null `ifa_addr`
abbrev put_address : (i : ℕ) → Address → List Device → Option (List Device)
put_address i addr ds = if is_null addr then none else some (placed i addr ds)

-- A round of the loop of `device_init`, `none` for a fault
unfoldable pub init_interface : Interface → List Device → Option (List Device)
unfolding find_name device_add put_ip
init_interface n ds = elim (find_name n.name ds) [
  | some i ↦ put_address i n.addr ds
  | none ↦
      if is_loopback n
      then some ds
      else if not (is_up n)
      then some ds
      else put_address (length ds) n.addr (device_add (device_new n.name) ds)
]

unfoldable pub init_interfaces : List Interface → List Device → Option (List Device)
unfolding init_interface
init_interfaces [] ds = some ds
init_interfaces (n ∷ ns) ds = elim (init_interface n ds) [
  | none ↦ none
  | some ds' ↦ init_interfaces ns ds'
]

-- The list behind a lookup: `device_init` fills it where it is empty. `interfaces` is what
-- `getifaddrs` returns; `none` is a fault.
unfoldable pub devices_ready : (interfaces : List Interface) → List Device → Option (List Device)
unfolding init_interfaces
devices_ready interfaces [] = init_interfaces interfaces []
devices_ready interfaces (d ∷ ds) = some (d ∷ ds)

-- What a lookup finds, and the list behind it
abbrev pub looked_up :
    (List Device → Option ℕ) → Option (List Device) → Option (Option ℕ × List Device)
looked_up find none = none
looked_up find (some ds) = some (find ds, ds)

-- `device_search_by_name` of a name that is not null: what was found, and the list behind it
unfoldable pub device_search_by_name :
    (interfaces : List Interface) → Text → List Device → Option (Option ℕ × List Device)
unfolding find_name devices_ready
device_search_by_name interfaces name ds = looked_up (find_name name) (devices_ready interfaces ds)

unfoldable pub device_search_by_eth :
    (interfaces : List Interface) → EtherAddr → List Device → Option (Option ℕ × List Device)
unfolding find_eth devices_ready
device_search_by_eth interfaces eth ds = looked_up (find_eth eth) (devices_ready interfaces ds)

abbrev has_ip : IpAddr → List IpAddr → Bool
has_ip ip [] = false
has_ip ip (x ∷ xs) = x == ip || has_ip ip xs

unfoldable pub find_ip : IpAddr → List Device → Option ℕ
find_ip ip [] = none
find_ip ip (n ∷ ns) = let rest = find_ip ip ns in if has_ip ip n.ip then some 0 else onward rest

unfoldable pub device_search_by_ip :
    (interfaces : List Interface) → IpAddr → List Device → Option (Option ℕ × List Device)
unfolding find_ip devices_ready
device_search_by_ip interfaces ip ds = looked_up (find_ip ip) (devices_ready interfaces ds)
