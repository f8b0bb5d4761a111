-- ===== src/Tftp/Handler/Requests.antt =====
-- Read requests of a host that may use tftp.
use bootd.Base.{ℕ, ◌≡◌, true, Option, none, some, List, ◌==◌, get_elem?, Text, codes, arith}
use bootd.Server.State.{Host, File, Listener, SockAddr, World, udp}
use bootd.Server.Run.{Run, Cmd, done, fault}
use bootd.Server.System.{System}
use bootd.Server.Packet.{u16}
use bootd.Services.Ids
use bootd.Services.Ids.{allows}
use bootd.Util.Files.{util_name2file}
use bootd.Util.Walk.Found.{IsRegistry, first_host}
use bootd.Listener.Registry.{listener_new_udp, listener_add}
use bootd.Host.Memory.{read_host}
use bootd.Host.Sessions.Count.{SessionsOk}
use bootd.Host.Sessions.Keeps.{host_session_delete-Keeps}
use bootd.Tftp.Packet.{tftp_get_filename}
use bootd.Tftp.Packet.Reply.{datagram, error_bytes}
use bootd.Tftp.Packet.Logged.{Fits}
use bootd.Tftp.Handler.{tftp_handler, serve_client, dispatch, on_rrq, serve_file, reject}
use bootd.Tftp.Handler.Denied.{tftp_handler-serve_client, reject-datagram}

-- The system always has a socket to give.
abbrev pub HasSockets : System → Type 0
HasSockets sys =
    (k : ℕ) (from : SockAddr) (to : Option SockAddr)
    → (fd : ℕ) × (sys.udp_socket k from to ≡ some fd)

-- What a read request comes to, by the file that its name stands for.
abbrev pub rrq_result : System → World → Listener → SockAddr → Option File → Run (Unit {0})
rrq_result sys w l from none =
    done tt (datagram sys w l from (error_bytes 1 (codes "file not configured")))
rrq_result sys w l from (some f) = fault

module _ (sys : System) (sockets : HasSockets sys) where
  serve_file-fault :
      (l : Listener) (from to : SockAddr) (w : World) (p : ℕ) (h : Host) (f : File)
      → SessionsOk w
      → get_elem? w.hosts p ≡ some h
      → serve_file sys l from to p f w ≡ fault
  unfolding serve_file listener_new_udp listener_add
  serve_file-fault l from to w p h f ok eh =
      let (a, v, run, ok', frame', idle) = host_session_delete-Keeps w p h ok eh in
      let (fd, e) = sockets v.calls (record { addr = to.addr; port = 0 }) (some from) in
      simp (run, e)

module _ (sys : System) (l : Listener) (from to : SockAddr) (packet : List ℕ) (pktlen : ℕ)
    (w : World) (xs : List (ℕ × Host)) (u : l.type ≡ udp) (f : Fits packet pktlen)
    (r : IsRegistry w xs) where
  on_rrq-result :
      (p : ℕ) (h : Host) (name : Option Text)
      → HasSockets sys
      → SessionsOk w
      → get_elem? w.hosts p ≡ some h
      → tftp_get_filename packet pktlen w ≡ done name w
      → on_rrq sys l from to p h packet pktlen w
        ≡ rrq_result sys w l from (util_name2file (some h) Ids.tftp name 0)
  unfolding on_rrq
  on_rrq-result p h name sockets ok eh en = rw en (
      (elim (util_name2file (some h) Ids.tftp name 0)
        as (λ o.
          elim o as (λ _. Cmd (Unit {0})) [
            | none ↦ reject sys l from to 1 (codes "file not configured")
            | some g ↦ serve_file sys l from to p g
          ]
            w
          ≡ rrq_result sys w l from o) [
            | none ↦
                reject-datagram sys l from to packet pktlen w xs u f r 1
                  (codes "file not configured") (omega arith)
            | some g ↦ serve_file-fault sys sockets l from to w p h g ok eh
          ]))

  -- A read request of at most 513 bytes, over a udp listener, of a host in a registry that ends,
  -- which may use tftp, where the sessions' invariant holds and the system has sockets. If its
  -- name stands for none of the host's files, one ERROR datagram with code 1, file not found, goes
  -- back, and nothing else changes. If it stands for one, the server faults: the new listener has
  -- no name, and `listener_add` writes through it.
  pub tftp_handler-rrq :
      (p : ℕ) (h : Host) (name : Option Text)
      → HasSockets sys
      → SessionsOk w
      → first_host (λ h. from.addr == h.ip) xs ≡ some p
      → get_elem? w.hosts p ≡ some h
      → allows h.service Ids.tftp ≡ true
      → u16 packet 0 ≡ some 1
      → tftp_get_filename packet pktlen w ≡ done name w
      → tftp_handler sys l from to packet pktlen w
        ≡ rrq_result sys w l from (util_name2file (some h) Ids.tftp name 0)
  unfolding serve_client read_host dispatch
  tftp_handler-rrq p h name sockets ok e eh d op en = simp (
    tftp_handler-serve_client sys l from to packet pktlen w xs u f r,
    e,
    eh,
    d,
    op,
    on_rrq-result p h name sockets ok eh en,
  )
