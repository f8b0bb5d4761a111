-- ===== src/Tftp/Handler/Denied.antt =====
-- The guards of `tftp_handler`: who is turned away, and how.
use bootd.Base.{ℕ, ◌<◌, ◌≡◌, false, none, some, List, ◌==◌, length, get_elem?, Text, codes, arith}
use bootd.Server.State.{Host, Listener, SockAddr, World, udp}
use bootd.Server.Run.{done}
use bootd.Server.System.{System}
use bootd.Services.Ids
use bootd.Services.Ids.{allows}
use bootd.Util.Walk.Found.{IsRegistry, first_host, ip2host-first}
use bootd.Host.Memory.{read_host}
use bootd.Tftp.Packet.Reply.{datagram, error_bytes, tftp_send_error-datagram}
use bootd.Tftp.Packet.Logged.{Fits, tftp_log_msgpacket-done}
use bootd.Tftp.Handler.{tftp_handler, serve_client, reject}

module _ (sys : System) (l : Listener) (from to : SockAddr) (packet : List ℕ) (pktlen : ℕ)
    (w : World) (xs : List (ℕ × Host)) (u : l.type ≡ udp) (f : Fits packet pktlen)
    (r : IsRegistry w xs) where
  pub reject-datagram :
      (err : ℕ) (msg : Text)
      → length msg < 511
      → reject sys l from to err msg w ≡ done tt (datagram sys w l from (error_bytes err msg))
  unfolding reject
  reject-datagram err msg h = tftp_send_error-datagram sys w l from err msg u h

  pub tftp_handler-serve_client :
      tftp_handler sys l from to packet pktlen w
      ≡ serve_client sys l from to packet pktlen (first_host (λ h. from.addr == h.ip) xs) w
  unfolding tftp_handler
  tftp_handler-serve_client = simp (tftp_log_msgpacket-done f w, ip2host-first r from.addr)

  -- A packet of at most 513 bytes over a udp listener, from an address that no host of a registry
  -- that ends has, is answered by one ERROR datagram with
  -- code 2, access violation. Nothing else changes: no file is opened and no session touched.
  pub tftp_handler-unknown :
      first_host (λ h. from.addr == h.ip) xs ≡ none
      → tftp_handler sys l from to packet pktlen w
        ≡ done tt (datagram sys w l from (error_bytes 2 (codes "access denied, client unknown")))
  unfolding serve_client
  tftp_handler-unknown e = simp (
    tftp_handler-serve_client,
    e,
    reject-datagram 2 (codes "access denied, client unknown") (omega arith),
  )

  -- A packet of at most 513 bytes over a udp listener, from the address of a registered host whose
  -- mask does not allow tftp, is answered by one ERROR datagram with code 2. Nothing else changes.
  pub tftp_handler-not_allowed :
      (p : ℕ) (h : Host)
      → first_host (λ h. from.addr == h.ip) xs ≡ some p
      → get_elem? w.hosts p ≡ some h
      → allows h.service Ids.tftp ≡ false
      → tftp_handler sys l from to packet pktlen w
        ≡ done tt (
            datagram sys w l from
              (error_bytes 2 (codes "access denied, tftp not allowed for this host")))
  unfolding serve_client read_host
  tftp_handler-not_allowed p h e eh d = simp (
    tftp_handler-serve_client,
    e,
    eh,
    d,
    reject-datagram 2 (codes "access denied, tftp not allowed for this host") (omega arith),
  )
