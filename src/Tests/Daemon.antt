-- ===== src/Tests/Daemon.antt =====
-- Rounds of the daemon's loop, and its start.
use bootd.Base.{
  ℕ, ◌≡◌, refl, none, some, Bool, true, false, ltb, inl, List, [], ◌∷◌, ◌++◌, arith, ◌==◌,
  if◌then◌else◌, strcmp_eq,
}
use bootd.Server.State.{Listener, World}
use bootd.Server.Run.{done}
use bootd.Server.Packet.{u16, slice, be16}
use bootd.Services.Ids.{allows}
use bootd.Util.Walk.Found.{IsRegistry}
use bootd.Rarp.{is_rarp, rarp_header}
use bootd.Listener.Registry.{mem_id}
use bootd.Daemon.Network.{Network, Captured, frame, broken}
use bootd.Daemon.Receive.Frames.{IsForeign, Arrival, failure, request, foreign}
use bootd.Daemon.Select.{fd_set_of, listener_select}
use bootd.Daemon.Receive.Frames.{IsRegistry-counted}
use bootd.Daemon.Select.Served.{selected, receive_each, listener_select-receive_each}
use bootd.Daemon.Select.Frames.{Kept, Steady-Arrivals, Arrivals, listener_select-after_round}
use bootd.Daemon.Main.{server_loop}
use bootd.Daemon.Main.Loop.{Ready, server_loop-Ready}
use bootd.Tests.Data.{sys, client_ether, link_listener, world, registry_list}
use bootd.Tests.Handlers.{rarp_request, rarp_fields}

-- A frame of an IP packet
abbrev pub ip_frame : List ℕ
ip_frame = client_ether ++ (client_ether ++ (be16 0x0800 ++ 69 ∷ 0 ∷ []))

-- Up to the sixth call, RARP requests arrive on descriptor 4 and IP packets on all others; behind it
-- pcap_loop fails. All are always ready.
abbrev pub pcap_at : (early : Bool) → (fd : ℕ) → Captured
pcap_at true fd = if fd == 4 then frame rarp_request 42 else frame ip_frame 16
pcap_at false fd = broken

abbrev pub net : Network
net = record {
  select = λ k fds. some fds;
  recv_from = λ k fd len. none;
  getsockname = λ k fd. none;
  pcap_next = λ k fd. pcap_at (ltb k 6) fd;
  svc_fdset = λ k fd. true;
  svc_create = λ k fd. true;
  svc_register = λ k fd. true;
  svc_getreq = λ k fd. done tt;
}

-- Two link listeners
abbrev pub second_link : Listener
second_link = record link_listener { id = 5; fd = 6 }

abbrev pub links : List Listener
links = link_listener ∷ second_link ∷ []

abbrev pub link_world : World
link_world = record world { g_listeners = links; next_id = 6 }

ip_frame-IsForeign : IsForeign ip_frame
unfolding u16 slice
ip_frame-IsForeign = record {
  saddr = client_ether;
  has_saddr = refl;
  type = 0x0800;
  has_type = refl;
  no_rarp = λ e. omega arith;
  dsap = 69;
  has_dsap = refl;
  no_rmp = inl (omega arith);
}

rarp_arrival : (early : Bool) → Arrival 28 (pcap_at early 4)
unfolding is_rarp rarp_header u16 slice
rarp_arrival true =
    request rarp_request 42 rarp_fields refl
      (λ w. record { long = omega arith; ours = refl; header = refl })
rarp_arrival false = failure refl

ip_arrival : (early : Bool) → Arrival 28 (pcap_at early 6)
ip_arrival true = foreign ip_frame 16 refl ip_frame-IsForeign
ip_arrival false = failure refl

links-Arrivals : Arrivals sys net 28 links
unfolding rarp_arrival ip_arrival
links-Arrivals = ((refl, λ k. rarp_arrival (ltb k 6)), ((refl, λ k. ip_arrival (ltb k 6)), tt))

link_world-IsRegistry : IsRegistry link_world registry_list
link_world-IsRegistry = record {
  chain = (refl, refl, (refl, refl, refl));
  room = omega arith;
  named = (λ e. cc, (λ e. cc, tt));
}

listener_select-after_round_example :
    listener_select sys net 28 3 link_world
    ≡ done tt (record link_world { calls = 5; arp_updates = (0x0a000002, client_ether) ∷ [] })
unfolding allows strcmp_eq fd_set_of mem_id links-Arrivals
listener_select-after_round_example =
    listener_select-after_round sys net 28 3 (4 ∷ 6 ∷ []) (4 ∷ 6 ∷ []) link_world registry_list
      links-Arrivals link_world-IsRegistry (((λ e. cc), tt), (tt, tt)) (refl, (refl, tt))
      (omega arith) refl refl

server_loop-Ready_example :
    (server_loop sys net 28 3 2 link_world
      ≡ done tt (record link_world { calls = 8; arp_updates = (0x0a000002, client_ether) ∷ [] }))
    × Ready
        (record link_world { calls = 8; arp_updates = (0x0a000002, client_ether) ∷ [] })
        links
        registry_list
unfolding allows strcmp_eq fd_set_of mem_id links-Arrivals
server_loop-Ready_example =
    server_loop-Ready sys net 28 3 links (4 ∷ 6 ∷ []) registry_list links-Arrivals
      (((λ e. cc), tt), (tt, tt)) (omega arith) refl 2 link_world
      (record { registry = link_world-IsRegistry; listeners = refl; alive = (refl, (refl, tt)) })

abbrev kept : Kept link_world (selected link_world) registry_list
kept = record {
  registry = IsRegistry-counted link_world-IsRegistry;
  listeners = refl;
  freed = refl;
}

listener_select-receive_each_example :
    (v : World) × (listener_select sys net 28 3 link_world ≡ done tt v)
    × (receive_each sys net 28 links (selected link_world) ≡ done tt v)
    × Kept link_world v registry_list
unfolding fd_set_of mem_id
listener_select-receive_each_example =
    listener_select-receive_each sys net 28 (λ v. Kept link_world v registry_list) 3 (4 ∷ 6 ∷ [])
      (4 ∷ 6 ∷ []) link_world (λ v k. (k.listeners, rw k.freed (refl, (refl, tt))))
      (((λ e. cc), tt), (tt, tt))
      (Steady-Arrivals sys net 28 (4 ∷ 6 ∷ []) registry_list link_world links links-Arrivals) kept
      (omega arith) refl refl
