-- ===== src/Rarp.antt =====
-- src/rarp.c: the RARP server, with the frame of src/rarp.h.
pub mod Silent
use bootd.Base.{
  ℕ, ◌+◌, ◌/◌, ◌%◌, ◌^◌, Bool, true, false, not, ◌&&◌, Option, none, some, List, [], ◌∷◌, ◌++◌,
  ◌==◌, ltb, if◌then◌else◌, get_elem?,
}
use bootd.Server.State.{EtherAddr, IpAddr, Host, Listener}
use bootd.Server.Run.{Cmd, pure, done, need, get_world, ◌>>=◌, ◌>>◌}
use bootd.Server.System.{System, syscall}
use bootd.Server.Packet.{u16, slice, be16}
use bootd.Services.Ids
use bootd.Services.Ids.{allows}
use bootd.Util.Walk.{util_ether2host}
use bootd.Listener.Send.{send}
use bootd.Host.Memory.{read_host}

-- ETHERTYPE_REVARP, ETHERTYPE_IP, ARPHRD_ETHER and the two opcodes
abbrev pub ethertype_revarp : ℕ
ethertype_revarp = 0x8035

abbrev pub ethertype_ip : ℕ
ethertype_ip = 0x0800

abbrev pub arphrd_ether : ℕ
arphrd_ether = 1

abbrev pub arpop_revrequest : ℕ
arpop_revrequest = 3

abbrev pub arpop_revreply : ℕ
arpop_revreply = 4

-- `struct rarp_header` without the fields that `is_rarp` tests; the addresses as octets.
pub record RarpHeader : Type 0 where
  pub daddr : EtherAddr
  pub saddr : EtherAddr
  pub op : ℕ
  pub sha : EtherAddr
  pub spa : List ℕ
  pub tha : EtherAddr
  pub tpa : List ℕ

-- The fields that are tested, and what they have to be.
unfoldable pub is_rarp : (packet : List ℕ) → Cmd Bool
is_rarp packet = do
  type ← need (u16 packet 12)
  hrd ← need (u16 packet 14)
  pro ← need (u16 packet 16)
  hln ← need (get_elem? packet 18)
  pln ← need (get_elem? packet 19)
  pure (
      type == ethertype_revarp
      && hrd == arphrd_ether
      && pro == ethertype_ip
      && hln == 6
      && pln == 4)

-- All other fields; `rarp_logpacket` reads every one of them.
unfoldable pub rarp_header : (packet : List ℕ) → Cmd RarpHeader
rarp_header packet = do
  daddr ← need (slice packet 0 6)
  saddr ← need (slice packet 6 6)
  op ← need (u16 packet 20)
  sha ← need (slice packet 22 6)
  spa ← need (slice packet 28 4)
  tha ← need (slice packet 32 6)
  tpa ← need (slice packet 38 4)
  pure
      (record { daddr = daddr; saddr = saddr; op = op; sha = sha; spa = spa; tha = tha; tpa = tpa })

-- The octets of an address in memory order
abbrev pub ip_octets : IpAddr → List ℕ
ip_octets ip = (ip / 2 ^ 24) % 256 ∷ (ip / 2 ^ 16) % 256 ∷ (ip / 2 ^ 8) % 256 ∷ ip % 256 ∷ []

-- The 42 bytes of the reply that the handler fills in
unfoldable pub rarp_reply : Listener → Host → RarpHeader → List ℕ
rarp_reply l h req =
    req.saddr
    ++ (l.eth
        ++ (be16 ethertype_revarp
            ++ (be16 arphrd_ether
                ++ (be16 ethertype_ip
                    ++ (6 ∷ 4 ∷ be16 arpop_revreply
                        ++ (l.eth ++ (ip_octets l.ip ++ (req.tha ++ ip_octets h.ip))))))))

-- Behind the ioctl, by whether it worked
unfoldable pub arp_set : IpAddr → EtherAddr → Bool → Cmd (Unit {0})
arp_set ip eth false w = done tt w
arp_set ip eth true w = done tt (record w { arp_updates = (ip, eth) ∷ w.arp_updates })

-- `max(60, sizeof(struct rarp_header))`
abbrev pub reply_length : ℕ
reply_length = 60

module _ (sys : System) where
  -- Behind `socket`. The close of the socket cannot be told.
  unfoldable pub arp_request : IpAddr → EtherAddr → Option ℕ → Cmd (Unit {0})
  unfolding syscall arp_set
  arp_request ip eth none = pure tt
  arp_request ip eth (some s) = do ok ← syscall (λ k. sys.siocsarp k s ip eth); arp_set ip eth ok

  -- `rarp_updatetable` of the systems with SIOCSARP
  unfoldable pub rarp_updatetable : IpAddr → EtherAddr → Cmd (Unit {0})
  unfolding syscall arp_request
  rarp_updatetable ip eth = do s ← syscall (λ k. sys.arp_socket k); arp_request ip eth s

  unfoldable pub send_reply : Listener → Host → RarpHeader → Cmd (Unit {0})
  send_reply l h req = do
    rarp_updatetable h.ip h.eth
    w ← get_world
    send sys l none (rarp_reply l h req ++ sys.stale w.calls) reply_length
    pure tt

  unfoldable pub answer : Listener → RarpHeader → Option ℕ → Cmd (Unit {0})
  answer l req none = pure tt
  answer l req (some p) = do
    h ← read_host p
    if not (allows h.service Ids.rarp)
        then pure tt
        else if req.op == arpop_revrequest
        then send_reply l h req
        else pure tt

  -- `arp_hdr` is sizeof(struct libnet_arp_hdr), which differs between the versions of libnet.
  unfoldable pub rarp_handler :
      (arp_hdr : ℕ) → Listener → (packet : List ℕ) → (pktlen : ℕ) → Cmd (Unit {0})
  rarp_handler arp_hdr l packet pktlen = if ltb pktlen (14 + arp_hdr) then pure tt else do
    ours ← is_rarp packet
    if not ours
        then pure tt
        else (do req ← rarp_header packet; p ← util_ether2host req.tha; answer l req p)
