-- ===== src/Tests/Handlers.antt =====
-- The handlers of RARP, DHCP and RMP.
use bootd.Base.{
  some, none, c_string, ℕ, zero, suc, ◌≡◌, refl, List, [], ◌∷◌, ◌++◌, arith, codes, strcmp_eq,
}
use bootd.Server.State.{EtherAddr, Listener, Session, udp}
use bootd.Server.Run.{done, fault}
use bootd.Server.Packet.{u16, slice, be16}
use bootd.Services.Ids.{allows}
use bootd.Rarp.{RarpHeader, is_rarp, rarp_header, rarp_handler}
use bootd.Rarp.Silent.{IsRequest, rarp_handler-effect}
use bootd.Dhcp.{dhcp_handler, string_at}
use bootd.Dhcp.Silent.{dhcp_handler-nameless}
use bootd.Rmp.Packet.{RmpHeader}
use bootd.Rmp.Packet.{BootReq}
use bootd.Util.Files.{util_name2file}
use bootd.Services.Ids
use bootd.Rmp.Handler.Boots.{BootOutcome, on_boot-outcome}
use bootd.Rmp.Handler.{on_boot}
use bootd.Tests.Data.{
  printer, world-ok, sys, client_ether, station, transfer, link_listener, world, world-IsRegistry,
  registry_list,
}

abbrev pub everyone : EtherAddr
everyone = 255 ∷ 255 ∷ 255 ∷ 255 ∷ 255 ∷ 255 ∷ []

abbrev pub rarp_request : List ℕ
rarp_request =
    everyone
    ++ (client_ether
        ++ (be16 0x8035
            ++ (be16 1
                ++ (be16 0x0800
                    ++ (6 ∷ 4 ∷ be16 3
                        ++ (client_ether
                            ++ (0 ∷ 0 ∷ 0 ∷ 0 ∷ client_ether ++ 0 ∷ 0 ∷ 0 ∷ 0 ∷ [])))))))

abbrev pub rarp_fields : RarpHeader
rarp_fields = record {
  daddr = everyone;
  saddr = client_ether;
  op = 3;
  sha = client_ether;
  spa = 0 ∷ 0 ∷ 0 ∷ 0 ∷ [];
  tha = client_ether;
  tpa = 0 ∷ 0 ∷ 0 ∷ 0 ∷ [];
}

rarp_request-IsRequest : IsRequest 28 rarp_request 42 rarp_fields world
unfolding is_rarp rarp_header u16 slice
rarp_request-IsRequest = record { long = omega arith; ours = refl; header = refl }

rarp_handler-effect_example :
    rarp_handler sys 28 link_listener rarp_request 42 world
    ≡ done tt (record world { calls = 2; arp_updates = (0x0a000002, client_ether) ∷ [] })
unfolding allows strcmp_eq
rarp_handler-effect_example =
    rarp_handler-effect sys 28 link_listener rarp_request 42 rarp_fields refl
      (world-IsRegistry transfer) rarp_request-IsRequest

abbrev zeros : ℕ → List ℕ
zeros zero = []
zeros (suc n) = 0 ∷ zeros n

-- A request of the station: opcode 1, and its address behind 28 bytes
abbrev dhcp_request : List ℕ
dhcp_request = 1 ∷ zeros 27 ++ (client_ether ++ zeros 300)

-- A listener for DHCP, and a request for the server `sun`
abbrev dhcp_listener : Listener
dhcp_listener = record link_listener { type = udp; name = none }

abbrev named_request : List ℕ
named_request = 1 ∷ zeros 27 ++ (client_ether ++ (zeros 10 ++ (codes "sun" ++ zeros 300)))

dhcp_handler-nameless_example : dhcp_handler dhcp_listener named_request world ≡ fault
unfolding string_at c_string
dhcp_handler-nameless_example =
    dhcp_handler-nameless dhcp_listener named_request 0 (codes "sun") [] world registry_list
      (world-IsRegistry transfer) refl (omega arith) refl refl refl

unnamed_request : dhcp_handler dhcp_listener dhcp_request world ≡ done tt world
unfolding string_at c_string
unnamed_request =
    dhcp_handler-nameless dhcp_listener dhcp_request 0 [] [] world registry_list
      (world-IsRegistry transfer) refl (omega arith) refl refl refl

abbrev rmp_session : Session
rmp_session = record transfer { service = 8; sid = 1 }

abbrev rmp_fields : RmpHeader
rmp_fields = record {
  daddr = 9 ∷ 0 ∷ 9 ∷ 0 ∷ 0 ∷ 4 ∷ [];
  saddr = client_ether;
  dsap = 0xf8;
  cntl = 0x300;
  dxsap = 0x608;
  type = 2;
  seqh = 0;
  seql = 100;
  session = 1;
}

-- The header of a read request is of no matter behind the guards; the size 1000 follows it.
abbrev read_packet : List ℕ
read_packet = zeros 32 ++ be16 1000

abbrev boot_fields : BootReq
boot_fields = record { version = 2; machtype = codes "HPS300"; flnm = codes "unix" }

on_boot-outcome_example :
    BootOutcome
      (util_name2file (some station) Ids.rmp (some (codes "unix")) 0)
      (on_boot sys link_listener 1 station boot_fields world)
      world
on_boot-outcome_example =
    on_boot-outcome sys link_listener world 1 station (0 ∷ 1 ∷ []) world-ok
      (refl, printer, refl, (refl, station, refl, refl)) (omega arith) refl boot_fields
