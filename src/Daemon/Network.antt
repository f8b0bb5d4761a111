-- ===== src/Daemon/Network.antt =====
-- What arrives from outside: the calls of select, recvfrom, pcap and the RPC library that the
-- listeners make, as functions of the number of calls made before.
use bootd.Base.{ℕ, Bool, Option, List}
use bootd.Server.State.{SockAddr}
use bootd.Server.Run.{Cmd}

-- A call of pcap_loop for one frame hands it to the callback, with its length on the wire, or fails
-- and calls none; where no frame comes it never returns.
pub data Captured : Type 0 where
  frame : (pkt : List ℕ) → (len : ℕ) → Captured
  broken : Captured
  waiting : Captured

-- `select` returns which of the descriptors it is given are ready, and `recv_from` the sender and
-- at most so many bytes; `none` is a result of -1. `pcap_next` is what pcap_loop
-- comes to. `svc_getreq` is what the
-- RPC library does with a request; `svc_create` and `svc_register` tell whether it took a socket, and
-- a program on it.
pub record Network : Type 0 where
  pub select : ℕ → List ℕ → Option (List ℕ)
  pub recv_from : ℕ → (fd len : ℕ) → Option (SockAddr × List ℕ)
  pub getsockname : ℕ → (fd : ℕ) → Option SockAddr
  pub pcap_next : ℕ → (fd : ℕ) → Captured
  pub svc_fdset : ℕ → (fd : ℕ) → Bool
  pub svc_create : ℕ → (fd : ℕ) → Bool
  pub svc_register : ℕ → (fd : ℕ) → Bool
  pub svc_getreq : ℕ → (fd : ℕ) → Cmd (Unit {0})
