-- ===== src/Server/State.antt =====
-- The structs of src/host.h and src/listener.h and the globals of src/global.h. Hosts and sessions
-- lie in arenas, and a pointer is an index: `host_clone` copies pointers, so two hosts may share a
-- session. A freed session is `none` in its arena.
use bootd.Base.{ℕ, Option, List, ℤ, Text}

-- `etheraddr_t`, six octets; `ipaddr_t`, its `s_addr` as a number
abbrev pub EtherAddr : Type 0
EtherAddr = List ℕ

abbrev pub IpAddr : Type 0
IpAddr = ℕ

-- The members of `struct sockaddr_in` that the code uses, the port in host order.
pub record SockAddr : Type 0 where
  pub addr : IpAddr
  pub port : ℕ

-- The `next` of a file is its place in the host's list. `aliases` holds the entries before the
-- first null, as every loop over the array but one stops there.
pub record File : Type 0 where
  pub path : Option Text
  pub name : Option Text
  pub server : Option Text
  pub aliases : List Text
  pub service : ℕ

-- `fds` is `fd`, where 0 stands for an unused slot; `link` is `l`, the fd of that listener.
pub record Session : Type 0 where
  pub service : ℕ
  pub atime : ℕ
  pub sid : ℕ
  pub fds : List ℕ
  pub link : Option ℕ

-- `device` is left out, as no code uses it.
pub record Host : Type 0 where
  pub next : Option ℕ
  pub name : Option Text
  pub service : ℕ
  pub eth : EtherAddr
  pub ip : IpAddr
  pub files : List File
  pub session : Option ℕ

pub data ListenType : Type 0 where
  link udp rpc_udp : ListenType

-- The service routines that `service_init` gives to services of udp listeners
pub data Handler : Type 0 where
  dhcp_service tftp_service : Handler

-- `id` is the address of the struct. A udp listener's peer is `to`, `addr` 0 if it has none; its
-- `service` is the routine that gets each packet.
pub record Listener : Type 0 where
  pub id : ℕ
  pub fd : ℕ
  pub ip : IpAddr
  pub eth : EtherAddr
  pub name : Option Text
  pub type : ListenType
  pub to : SockAddr
  pub service : Option Handler

-- `service_t`: the devices and the filter of a link service, the addresses and the default port of
-- a udp one, and the routine that a udp listener calls.
pub record Service : Type 0 where
  pub name : Text
  pub id : ℕ
  pub devices : List Text
  pub bindaddr : List SockAddr
  pub defport : ℕ
  pub filter : Text
  pub service : Option Handler

-- A frame or datagram that was handed to the system: from which descriptor, to whom, and its bytes.
pub record Sent : Type 0 where
  pub fd : ℕ
  pub to : Option SockAddr
  pub bytes : List ℕ

-- `calls` counts the system calls so far, `next_id` numbers the listeners. `freed` lists the
-- listeners that were released, `sent` what was sent and `arp_updates` the entries put into the ARP
-- table, each the last one first.
pub record World : Type 0 where
  pub hosts : List Host
  pub g_hosts : Option ℕ
  pub sessions : List (Option Session)
  pub g_n_sessions : ℤ
  pub g_listeners : List Listener
  pub l_services : List Service
  pub c_session_max : ℤ
  pub c_session_timeout : ℤ
  pub c_resolve_ether : ℤ
  pub c_resolve_ip : ℤ
  pub rmp_sid : ℕ
  pub calls : ℕ
  pub next_id : ℕ
  pub freed : List ℕ
  pub sent : List Sent
  pub arp_updates : List (IpAddr × EtherAddr)
