-- ===== src/Daemon/Rpc.antt =====
-- `listener_new_rpc_udp` of src/listener.c. The calls of the RPC library are inputs.
use bootd.Base.{suc, ℕ, Bool, true, false, Option, none, some, [], ◌∷◌}
use bootd.Server.State.{Listener, SockAddr, rpc_udp}
use bootd.Server.Run.{Cmd, pure, done, ◌>>=◌}
use bootd.Server.System.{System, syscall}
use bootd.Daemon.Network.{Network}

-- The struct behind `memset`, with the fields that are set
unfoldable pub rpc_listener : (fd : ℕ) → Cmd (Option Listener)
rpc_listener fd w =
    done
      (some (record {
        id = w.next_id;
        fd = fd;
        ip = 0;
        eth = 0 ∷ 0 ∷ 0 ∷ 0 ∷ 0 ∷ 0 ∷ [];
        name = none;
        type = rpc_udp;
        to = record { addr = 0; port = 0 };
        service = none;
      }))
      (record w { next_id = suc w.next_id })

module _ (sys : System) (net : Network) where
  unfoldable pub registered : (fd : ℕ) → Bool → Cmd (Option Listener)
  unfolding rpc_listener
  registered fd false = pure none
  registered fd true = rpc_listener fd

  unfoldable pub created : (fd : ℕ) → Bool → Cmd (Option Listener)
  unfolding registered syscall
  created fd false = pure none
  created fd true = do ok ← syscall (λ k. net.svc_register k fd); registered fd ok

  unfoldable pub rpc_bound : Option ℕ → Cmd (Option Listener)
  unfolding created syscall
  rpc_bound none = pure none
  rpc_bound (some fd) = do ok ← syscall (λ k. net.svc_create k fd); created fd ok

  -- With a local address
  unfoldable pub listener_new_rpc_udp : (from : SockAddr) → Cmd (Option Listener)
  unfolding rpc_bound syscall
  listener_new_rpc_udp from = do fd ← syscall (λ k. sys.udp_socket k from none); rpc_bound fd
