-- ===== src/Listener/Send.antt =====
-- The send routines `i_listener_link_send` and `i_listener_udp_send`.
use bootd.Base.{ℕ, ◌&&◌, Option, none, some, List, ◌∷◌, ◌==◌, ltb, take, ℤ, negsuc, if◌then◌else◌}
use bootd.Server.State.{Listener, SockAddr, udp, link, rpc_udp}
use bootd.Server.Run.{Cmd, pure, done, fail_fault, ◌>>◌}
use bootd.Server.System.{System, syscall}

-- The first `pktlen` bytes of a buffer go to the system.
hand_over : ℕ → Option SockAddr → List ℕ → Cmd (Unit {0})
hand_over fd to bytes w =
    done tt (record w { sent = (record { fd = fd; to = to; bytes = bytes }) ∷ w.sent })

-- A peer that is the listener's own, or that is unspecified, is left to `send`.
unfoldable pub udp_peer : Listener → Option SockAddr → Option SockAddr
udp_peer l none = none
udp_peer l (some to) =
    if to.addr == l.to.addr && to.port == l.to.port
    then none
    else if to.addr == 0 && to.port == 0
    then none
    else some to

module _ (sys : System) where
  -- Frames of less than 62 bytes are rejected.
  unfoldable pub link_send : Listener → (packet : List ℕ) → (pktlen : ℕ) → Cmd ℤ
  unfolding syscall hand_over
  link_send l packet pktlen = if ltb pktlen 62 then pure (negsuc 0) else do
    hand_over l.fd none (take pktlen packet)
    syscall (λ k. sys.write_link k (take pktlen packet))

  unfoldable pub udp_send : Listener → Option SockAddr → (packet : List ℕ) → (pktlen : ℕ) → Cmd ℤ
  unfolding syscall hand_over
  udp_send l to packet pktlen = do
    hand_over l.fd (udp_peer l to) (take pktlen packet)
    syscall (λ k. sys.send_to k (udp_peer l to) (take pktlen packet))

  -- `l->send`, which is null for an rpc listener
  unfoldable pub send : Listener → Option SockAddr → (packet : List ℕ) → (pktlen : ℕ) → Cmd ℤ
  unfolding link_send udp_send
  send l to packet pktlen = elim l.type [
    | link ↦ link_send l packet pktlen
    | udp ↦ udp_send l to packet pktlen
    | rpc_udp ↦ fail_fault
  ]
