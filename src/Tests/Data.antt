-- ===== src/Tests/Data.antt =====
-- A server with two hosts, of which the second has a TFTP session.
use bootd.Base.{
  true, ℕ, zero, suc, ◌+◌, ◌%◌, ◌≡◌, ◌≢◌, refl, none, some, List, [], ◌∷◌, get_elem?, pos, take,
  drop, codes, arith,
}
use bootd.Server.State.{
  EtherAddr, SockAddr, File, Session, Host, Listener, World, udp, link, tftp_service,
}
use bootd.Server.System.{System, opened}
use bootd.Util.Walk.Found.{IsRegistry}
use bootd.Host.Sessions.Count.{SessionsOk, Quiet}
use bootd.Listener.Registry.{search_fd}
use mathlib.Core.Path.{subst}

-- 600 bytes: a block and a part of one
abbrev pub fill : ℕ → List ℕ
fill zero = []
fill (suc n) = n % 256 ∷ fill n

abbrev pub content : List ℕ
content = fill 600

abbrev pub sys : System
sys = record {
  time = λ k. 100 + k;
  open_file = λ k path. opened 5;
  read_at = λ k fd len offs. some (take len (drop offs content));
  udp_socket = λ k from to. some 7;
  write_link = λ k bytes. pos 0;
  send_to = λ k to bytes. pos 0;
  arp_socket = λ k. some 9;
  siocsarp = λ k fd ip eth. true;
  ether_aton = λ t. none;
  inet_aton = λ t. none;
  ether_ntoa = λ e. [];
  inet_ntoa = λ i. [];
  ether_hostton = λ k t. none;
  ether_ntohost = λ k e. none;
  gethostbyname = λ k t. none;
  gethostbyaddr = λ k i. none;
  strerror = λ k. [];
  stale = λ k. [];
}

abbrev pub client_ether : EtherAddr
client_ether = 8 ∷ 0 ∷ 9 ∷ 1 ∷ 2 ∷ 3 ∷ []

abbrev pub client : SockAddr
client = record { addr = 0x0a000002; port = 2000 }

abbrev pub stranger : SockAddr
stranger = record { addr = 0x0a000009; port = 2001 }

abbrev pub server : SockAddr
server = record { addr = 0x0a000001; port = 69 }

abbrev pub any_file : File
any_file = record {
  path = some (codes "/any");
  name = some (codes "*");
  server = none;
  aliases = [];
  service = 0xffff;
}

abbrev pub kernel : File
kernel = record {
  path = some (codes "/boot/unix");
  name = some (codes "unix");
  server = none;
  aliases = codes "k" ∷ [];
  service = 16;
}

abbrev pub printer : Host
printer = record {
  next = some 1;
  name = some (codes "printer");
  service = 2;
  eth = 8 ∷ 0 ∷ 9 ∷ 9 ∷ 9 ∷ 9 ∷ [];
  ip = 0x0a000003;
  files = [];
  session = none;
}

abbrev pub station : Host
station = record {
  next = none;
  name = some (codes "station");
  service = 0xffff;
  eth = client_ether;
  ip = 0x0a000002;
  files = any_file ∷ kernel ∷ [];
  session = some 0;
}

abbrev pub transfer : Session
transfer = record {
  service = 16;
  atime = 90;
  sid = 2000;
  fds = 5 ∷ 0 ∷ 0 ∷ 0 ∷ 0 ∷ 0 ∷ 0 ∷ 0 ∷ [];
  link = none;
}

abbrev pub tftp_listener : Listener
tftp_listener = record {
  id = 1;
  fd = 3;
  ip = 0x0a000001;
  eth = 0 ∷ 0 ∷ 0 ∷ 0 ∷ 0 ∷ 0 ∷ [];
  name = some (codes "udp");
  type = udp;
  to = record { addr = 0; port = 0 };
  service = some tftp_service;
}

abbrev pub link_listener : Listener
link_listener = record tftp_listener {
  id = 2;
  fd = 4;
  type = link;
  name = some (codes "le0");
  service = none;
}

abbrev pub listener_list : List Listener
listener_list = tftp_listener ∷ link_listener ∷ []

-- The server with this session of the station
abbrev pub with_session : Session → World
with_session x = record {
  hosts = printer ∷ station ∷ [];
  g_hosts = some 0;
  sessions = some x ∷ [];
  g_n_sessions = pos 1;
  g_listeners = listener_list;
  l_services = [];
  c_session_max = pos 4;
  c_session_timeout = pos 60;
  c_resolve_ether = pos 0;
  c_resolve_ip = pos 0;
  rmp_sid = 1;
  calls = 0;
  next_id = 3;
  freed = [];
  sent = [];
  arp_updates = [];
}

abbrev pub world : World
world = with_session transfer

abbrev pub registry_list : List (ℕ × Host)
registry_list = (0, printer) ∷ (1, station) ∷ []

pub world-IsRegistry : (x : Session) → IsRegistry (with_session x) registry_list
world-IsRegistry x = record {
  chain = (refl, refl, (refl, refl, refl));
  room = omega arith;
  named = (λ e. cc, (λ e. cc, tt));
}

only_station :
    (p : ℕ) (h : Host) (s : ℕ)
    → get_elem? (printer ∷ station ∷ []) p ≡ some h
    → h.session ≡ some s
    → (p ≡ 1) × (s ≡ 0)
only_station zero h s eh es = ground arith
only_station (suc zero) h s eh es = ground arith
only_station (suc (suc p)) h s eh es = cc

at_0 : (x y : Session) (s : ℕ) → get_elem? (some x ∷ []) s ≡ some (some y) → x ≡ y
at_0 x y zero e = cc
at_0 x y (suc s) e = cc

pub world-SessionsOk : (x : Session) → Quiet x.fds listener_list → SessionsOk (with_session x)
world-SessionsOk x q = record {
  live = λ p h s eh es. let (e, e') = only_station p h s eh es in (x, rw e' refl);
  apart = λ p r h g s eh eg es et.
      let (e, e') = only_station p h s eh es in let (f, f') = only_station r g s eg et in cc;
  counted = refl;
  quiet = λ s y e. subst (λ z. Quiet z.fds listener_list) (at_0 x y s e) q;
}

pub Quiet-fds : (n : ℕ) → n ≢ 3 → n ≢ 4 → Quiet (n ∷ 0 ∷ 0 ∷ 0 ∷ 0 ∷ 0 ∷ 0 ∷ 0 ∷ []) listener_list
unfolding search_fd
Quiet-fds n a b = (
  λ nz. ground arith,
  (λ z. cc, (λ z. cc, (λ z. cc, (λ z. cc, (λ z. cc, (λ z. cc, (λ z. cc, tt))))))),
)

pub world-ok : SessionsOk world
world-ok = world-SessionsOk transfer (Quiet-fds 5 (λ e. cc) (λ e. cc))
