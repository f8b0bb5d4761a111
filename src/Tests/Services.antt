-- ===== src/Tests/Services.antt =====
-- Devices, what a service is bound to, and the levels of messages.
use bootd.Devices.Distinct.{init_interfaces-find_name}
use bootd.Base.{
  pos, ◌+◌, ◌-◌, ◌≡◌, refl, true, Option, none, some, List, [], ◌∷◌, ◌++◌, leb, if◌then◌else◌,
  length, take, Text, codes, strcmp_eq, arith,
}
use bootd.Server.State.{IpAddr, Service}
use bootd.Server.Run.{done}
use bootd.Util.Resolve.{util_ip_valid}
use bootd.Services.Names.{decimal, digits_onto}
use bootd.Devices.{
  Device, Interface, null_addr, inet, link, find_name, put_ip, device_add, init_interface,
  init_interfaces, devices_ready,
}
use bootd.Strings.Hostport.{split, refused, has_char, unstarred, str_get_hostport}
use bootd.Strings.Hostport.Parts.{str_get_hostport-parts}
use bootd.Config.Values.Numbers.{starts_digit}
use bootd.Services.Bind.{link_devices_add, service_link_add, udp_device_add}
use bootd.Services.Bind.Filled.{wanted, udp_device_add-fills}
use bootd.Services.Bind.Links.{service_link_add-by_name}
use bootd.Log.{no_levels, written, log_msg}
use bootd.Log.Written.{log_inits, log_msg-written}
use bootd.Tests.Data.{sys, world}

abbrev card : Interface
card = record { name = codes "eth0"; flags = 1; addr = inet 7 }

-- The loopback, and a card with two addresses
abbrev cards : List Interface
cards =
    record { name = codes "lo0"; flags = 9; addr = inet 1 }
    ∷ card
    ∷ record card { addr = link (1 ∷ 2 ∷ 3 ∷ 4 ∷ 5 ∷ 6 ∷ []) }
    ∷ record card { addr = inet 8 }
    ∷ []

abbrev eth0 : Device
eth0 = record {
  name = codes "eth0";
  eth = 1 ∷ 2 ∷ 3 ∷ 4 ∷ 5 ∷ 6 ∷ [];
  ip = 7 ∷ 8 ∷ 0 ∷ 0 ∷ 0 ∷ 0 ∷ 0 ∷ 0 ∷ 0 ∷ 0 ∷ 0 ∷ 0 ∷ 0 ∷ 0 ∷ 0 ∷ 0 ∷ [];
  filter = [];
}

one_card : devices_ready cards [] ≡ some (eth0 ∷ [])
unfolding devices_ready init_interfaces init_interface find_name put_ip device_add strcmp_eq
    util_ip_valid
one_card = refl

abbrev tftp_service : Service
tftp_service = record {
  name = codes "tftp";
  id = 16;
  devices = [];
  bindaddr = [];
  defport = 69;
  filter = [];
  service = none;
}

abbrev rarp_service : Service
rarp_service = record {
  name = codes "rarp";
  id = 1;
  devices = [];
  bindaddr = [];
  defport = 0;
  filter = [];
  service = none;
}

-- The star before the first lookup by name: there is no device yet.
star_too_early :
    service_link_add sys cards rarp_service (codes "*") [] world
    ≡ done ((true, rarp_service), []) world
unfolding service_link_add link_devices_add strcmp_eq
star_too_early = refl

udp_device_add-fills_example : udp_device_add tftp_service eth0 69 ≡ (
  leb (length tftp_service.bindaddr + length (wanted eth0.ip 69)) 16,
  record tftp_service {
    bindaddr =
        tftp_service.bindaddr ++ take (16 - length tftp_service.bindaddr) (wanted eth0.ip 69);
  },
)
udp_device_add-fills_example = udp_device_add-fills tftp_service eth0 69 (omega arith)

service_link_add-by_name_example :
    service_link_add sys cards rarp_service (codes "eth0") [] world
    ≡ done
        (
          (true, record rarp_service { devices = rarp_service.devices ++ codes "eth0" ∷ [] }),
          eth0 ∷ [],
        )
        world
unfolding devices_ready init_interfaces init_interface find_name put_ip device_add strcmp_eq
    util_ip_valid
service_link_add-by_name_example =
    service_link_add-by_name sys cards rarp_service (codes "eth0") [] world refl

-- An interface whose address is null
null_card : devices_ready (record card { addr = null_addr } ∷ cards) [] ≡ none
unfolding devices_ready init_interfaces init_interface find_name put_ip device_add strcmp_eq
    util_ip_valid
null_card = refl

-- A library that reads no text as an address
abbrev no_address : Text → Option IpAddr
no_address t = none

str_get_hostport-parts_example : str_get_hostport no_address (codes "sun" ++ b':' ∷ decimal 69) ≡ (
    if starts_digit (unstarred (codes "sun"))
    then refused
    else split (unstarred (codes "sun")) (decimal 69))
unfolding has_char decimal digits_onto
str_get_hostport-parts_example =
    str_get_hostport-parts no_address (codes "sun") 69 refl refl (omega arith) (omega arith)
      (omega arith) (λ y. refl)

-- A debugging message where only warnings were asked for
log_msg-written_example : log_msg (log_inits (pos 2 ∷ []) no_levels) 0x100 ≡ written
log_msg-written_example = log_msg-written (pos 2 ∷ []) 0x100

init_interfaces-find_name_example : find_name (codes "eth0") (eth0 ∷ []) ≡ some 0
unfolding init_interfaces init_interface find_name put_ip device_add strcmp_eq util_ip_valid
init_interfaces-find_name_example = init_interfaces-find_name cards (eth0 ∷ []) 0 eth0 refl refl
