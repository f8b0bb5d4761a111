-- ===== src/Tftp/Handler/Acks.antt =====
-- Acknowledgements in a session: each is answered by the block of the file behind it.
pub mod Transfer
use bootd.Base.{
  ℕ, suc, ◌+◌, ◌*◌, ◌%◌, ◌^◌, ◌≡◌, refl, ap, true, some, List, [], ◌∷◌, ◌++◌, ◌==◌, length, take,
  drop, get_elem?, get_elem?-set, get_elem?-lt, arith,
}
use bootd.Server.State.{Host, Session, Listener, SockAddr, Sent, World, udp}
use bootd.Server.Run.{done}
use bootd.Server.System.{System, syscall}
use bootd.Server.Packet.{u16, be16}
use bootd.Services.Ids
use bootd.Services.Ids.{allows}
use bootd.Util.Walk.Found.{IsRegistry, first_host}
use bootd.Listener.Send.{udp_peer}
use bootd.Host.Memory.{read_host, read_session}
use bootd.Host.Sessions.{host_session_check, no_error}
use bootd.Host.Sessions.Checked.{touched}
use bootd.Tftp.Packet.{tftp_log_msgpacket}
use bootd.Tftp.Packet.Reply.{datagram, send-datagram}
use bootd.Tftp.Packet.Logged.{Fits}
use bootd.Tftp.Handler.{
  tftp_handler, serve_client, dispatch, on_ack, answer_ack, send_block, session_of, bf_fd,
}
use bootd.Tftp.Handler.Denied.{tftp_handler-serve_client}

-- `read` of a regular file that nobody writes: the bytes from the offset, as many as there are.
abbrev pub IsRegular : System → (fd : ℕ) → (content : List ℕ) → Type 0
IsRegular sys fd content =
    (k len offs : ℕ) → sys.read_at k fd len offs ≡ some (take len (drop offs content))

-- Host `p` has the sender's address, may use tftp, and has a session with the sender's port for its
-- id, whose file is open under `fd`.
pub record Transferring (w : World) (xs : List (ℕ × Host)) (from : SockAddr) (p fd : ℕ)
    : Type 0 where
  pub registry : IsRegistry w xs
  pub found : first_host (λ h. from.addr == h.ip) xs ≡ some p
  pub host : Host
  pub at_host : get_elem? w.hosts p ≡ some host
  pub allowed : allows host.service Ids.tftp ≡ true
  pub s : ℕ
  pub session : Session
  pub has_session : host.session ≡ some s
  pub at_session : get_elem? w.sessions s ≡ some (some session)
  pub service : session.service ≡ Ids.tftp
  pub sid : session.sid ≡ from.port
  pub file : bf_fd session.fds ≡ fd

-- The DATA datagram that answers the acknowledgement of block `n`.
abbrev pub data_bytes : (content : List ℕ) → ℕ → List ℕ
data_bytes content n = be16 3 ++ (be16 ((n + 1) % 2 ^ 16) ++ take 512 (drop (n * 512) content))

abbrev pub data_sent : Listener → SockAddr → (content : List ℕ) → ℕ → Sent
data_sent l from content n = record {
  fd = l.fd;
  to = udp_peer l (some from);
  bytes = data_bytes content n;
}

take_all : (xs : List ℕ) → take (length xs) xs ≡ xs
take_all [] = refl
take_all (x ∷ xs) = ap (λ t. x ∷ t) (take_all xs)

take_block :
    (n : ℕ) (bytes : List ℕ)
    → take (4 + length bytes) (be16 3 ++ (be16 n ++ bytes)) ≡ be16 3 ++ (be16 n ++ bytes)
take_block n bytes =
    let e : 4 + length bytes ≡ suc (suc (suc (suc (length bytes)))) = omega arith in
    rw e (ap (λ t. be16 3 ++ (be16 n ++ t)) (take_all bytes))

log-block :
    (n : ℕ) (bytes : List ℕ) (k : ℕ) (w : World)
    → tftp_log_msgpacket (be16 3 ++ (be16 n ++ bytes)) k w ≡ done tt w
unfolding tftp_log_msgpacket u16
log-block n bytes k w = refl

module _ (sys : System) (l : Listener) (from to : SockAddr) (w : World) (p fd : ℕ)
    (content : List ℕ) (u : l.type ≡ udp) (regular : IsRegular sys fd content) where
  send_block-datagram :
      (h : Host) (s : ℕ) (x : Session) (n offs : ℕ)
      → get_elem? w.hosts p ≡ some h
      → h.session ≡ some s
      → get_elem? w.sessions s ≡ some (some x)
      → bf_fd x.fds ≡ fd
      → send_block sys l from to l p n offs w
        ≡ done tt (
            datagram sys
              (record w { calls = suc w.calls })
              l
              from
              (be16 3 ++ (be16 n ++ take 512 (drop offs content))))
  unfolding send_block session_of read_host read_session syscall
  send_block-datagram h s x n offs eh es ex ef =
      let bytes = take 512 (drop offs content) in
      let v = record w { calls = suc w.calls } in
      simp (
        eh,
        es,
        ex,
        ef,
        regular w.calls 512 offs,
        send-datagram sys v l from (be16 3 ++ (be16 n ++ bytes)) (4 + length bytes) u,
        take_block n bytes,
        log-block n bytes,
      )

check-touched :
    (sys : System) (w : World) (p : ℕ) (h : Host) (s : ℕ) (x : Session) (service sid : ℕ)
    → get_elem? w.hosts p ≡ some h
    → h.session ≡ some s
    → get_elem? w.sessions s ≡ some (some x)
    → x.service ≡ service
    → x.sid ≡ sid
    → host_session_check sys p service sid w ≡ done no_error (touched sys w s x)
unfolding host_session_check
check-touched sys w p h s x service sid eh es ex e1 e2 = ground arith

-- The packet is an acknowledgement of block `n`.
pub record IsAck (packet : List ℕ) (n : ℕ) : Type 0 where
  pub opcode : u16 packet 0 ≡ some 4
  pub block : u16 packet 2 ≡ some n

module _ (sys : System) (l : Listener) (from to : SockAddr) (p fd : ℕ) (content : List ℕ)
    (u : l.type ≡ udp) (regular : IsRegular sys fd content) where
  -- The world behind the answer: the session was used now, and the block went out.
  abbrev acked : (w : World) (s : ℕ) → Session → ℕ → World
  acked w s x n =
      datagram sys (record (touched sys w s x) { calls = suc (suc w.calls) }) l from
        (data_bytes content n)

  module _ {w : World} {xs : List (ℕ × Host)} (t : Transferring w xs from p fd) (packet : List ℕ)
      (pktlen n : ℕ) (f : Fits packet pktlen) (a : IsAck packet n) where
    used : Session
    used = record t.session { atime = sys.time w.calls }

    at_used : get_elem? (touched sys w t.s t.session).sessions t.s ≡ some (some used)
    unfolding used
    at_used = ground (
      arith,
      get_elem?-lt w.sessions t.s t.at_session,
      get_elem?-set w.sessions t.s t.s (some used),
    )

    on_ack-acked : on_ack sys l from to p packet w ≡ done tt (acked w t.s t.session n)
    unfolding on_ack answer_ack
    on_ack-acked = simp (
      check-touched sys w p t.host t.s t.session Ids.tftp from.port t.at_host t.has_session
          t.at_session t.service t.sid,
      a.block,
      send_block-datagram sys l from to (touched sys w t.s t.session) p fd content u regular t.host
          t.s used ((n + 1) % 2 ^ 16) (n * 512) t.at_host t.has_session at_used
          (unfold used in t.file),
    )

    handler-acked : tftp_handler sys l from to packet pktlen w ≡ done tt (acked w t.s t.session n)
    unfolding serve_client read_host dispatch
    handler-acked = simp (
      tftp_handler-serve_client sys l from to packet pktlen w xs u f t.registry,
      t.found,
      t.at_host,
      t.allowed,
      a.opcode,
      on_ack-acked,
    )

    -- Over a udp listener, in a session of the sender whose file is a regular one: an
    -- acknowledgement of block `n` is answered by one DATA datagram to the sender, with the number
    -- n + 1, modulo 2^16, and the 512 bytes of the file from n * 512 on, or as many as it has
    -- there. The session goes on.
    pub tftp_handler-ack :
        (v : World) × (tftp_handler sys l from to packet pktlen w ≡ done tt v)
        × (v.sent ≡ data_sent l from content n ∷ w.sent)
        × Transferring v xs from p fd
    unfolding used
    tftp_handler-ack = (
      acked w t.s t.session n,
      handler-acked,
      refl,
      record {
        registry = record {
          chain = t.registry.chain;
          room = t.registry.room;
          named = t.registry.named;
        };
        found = t.found;
        host = t.host;
        at_host = t.at_host;
        allowed = t.allowed;
        s = t.s;
        session = used;
        has_session = t.has_session;
        at_session = at_used;
        service = t.service;
        sid = t.sid;
        file = t.file;
      },
    )
