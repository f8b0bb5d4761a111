-- ===== src/Daemon/Receive.antt =====
-- The receive handlers of src/listener.c.
pub mod Frames
use bootd.Base.{
  ℕ, Option, none, some, List, ◌++◌, ◌==◌, ltb, if◌then◌else◌, length, get_elem?, take,
}
use bootd.Server.State.{
  Listener, ListenType, SockAddr, Handler, dhcp_service, tftp_service, link, udp, rpc_udp,
}
use bootd.Server.Run.{hang, Cmd, pure, need, get_world, ◌>>=◌, ◌>>◌}
use bootd.Server.System.{System, syscall}
use bootd.Server.Packet.{u16, slice}
use bootd.Rarp.{rarp_handler, ethertype_revarp}
use bootd.Rmp.Packet.{sap_hp}
use bootd.Rmp.Handler.{rmp_handler}
use bootd.Tftp.Handler.{tftp_handler}
use bootd.Dhcp.{dhcp_handler}
use bootd.Daemon.Network.{Network, Captured, frame, broken, waiting}

-- `sizeof(buf)` of `i_listener_udp_receive`
abbrev pub buf_size : ℕ
buf_size = 4096

module _ (sys : System) (net : Network) (arp_hdr : ℕ) where
  -- The frames that are no RARP: a length below 1536 is that of an 802.3 packet.
  unfoldable pub llc_packet : Listener → (pkt : List ℕ) → (len type : ℕ) → Cmd (Unit {0})
  llc_packet l pkt len type =
      if ltb type 1536
      then (do
        dsap ← need (get_elem? pkt 14)
        if dsap == sap_hp then rmp_handler sys l pkt len else pure tt)
      else pure tt

  -- `i_listener_link_pcap_callback`. The source address is read for the log.
  unfoldable pub link_pcap_callback : Listener → (pkt : List ℕ) → (len : ℕ) → Cmd (Unit {0})
  unfolding llc_packet
  link_pcap_callback l pkt len = do
    saddr ← need (slice pkt 6 6)
    type ← need (u16 pkt 12)
    if type == ethertype_revarp
        then rarp_handler sys arp_hdr l pkt len
        else llc_packet l pkt len type

  -- What pcap_loop comes to
  unfoldable pub link_received : Listener → Captured → Cmd (Unit {0})
  unfolding link_pcap_callback
  link_received l (frame pkt len) = link_pcap_callback l pkt len
  link_received l broken = pure tt
  link_received l waiting = λ w. hang

  -- `i_listener_link_receive`
  unfoldable pub link_receive : Listener → Cmd (Unit {0})
  unfolding syscall link_received
  link_receive l = do got ← syscall (λ k. net.pcap_next k l.fd); link_received l got

  -- `l->service`; a packet for a listener without one is rejected.
  unfoldable pub call_service :
      Option Handler → Listener → (from to : SockAddr) → (buf : List ℕ) → (len : ℕ) → Cmd (Unit {0})
  call_service none l from to buf len = pure tt
  call_service (some dhcp_service) l from to buf len = dhcp_handler l buf
  call_service (some tftp_service) l from to buf len = tftp_handler sys l from to buf len

  -- Behind `getsockname`
  unfoldable pub udp_named :
      Listener → (from : SockAddr) → (buf : List ℕ) → (len : ℕ) → Option SockAddr → Cmd (Unit {0})
  unfolding call_service
  udp_named l from buf len none = pure tt
  udp_named l from buf len (some to) = call_service l.service l from to buf len

  -- Behind `recvfrom`: the bytes stand at the front of a buffer that is not initialised.
  unfoldable pub udp_received : Listener → Option (SockAddr × List ℕ) → Cmd (Unit {0})
  unfolding syscall udp_named
  udp_received l none = pure tt
  udp_received l (some (from, bytes)) = do
    w ← get_world
    name ← syscall (λ k. net.getsockname k l.fd)
    udp_named l from (take buf_size (bytes ++ sys.stale w.calls)) (length bytes) name

  -- `i_listener_udp_receive`
  unfoldable pub udp_receive : Listener → Cmd (Unit {0})
  unfolding syscall udp_received
  udp_receive l = do got ← syscall (λ k. net.recv_from k l.fd buf_size); udp_received l got

  -- `i_listener_rpc_udp_receive`
  unfoldable pub rpc_udp_receive : Listener → Cmd (Unit {0})
  rpc_udp_receive l = do
    w ← get_world
    if net.svc_fdset w.calls l.fd then net.svc_getreq w.calls l.fd else pure tt

  -- `l->receive`, which each constructor sets by the type
  unfoldable pub receive_as : ListenType → Listener → Cmd (Unit {0})
  unfolding link_receive udp_receive rpc_udp_receive
  receive_as link l = link_receive l
  receive_as udp l = udp_receive l
  receive_as rpc_udp l = rpc_udp_receive l

  unfoldable pub receive : Listener → Cmd (Unit {0})
  unfolding receive_as
  receive l = receive_as l.type l
