-- ===== src/Daemon/Receive/Frames.antt =====
-- What a frame does that is a RARP request, or that is neither for RARP nor for RMP.
use bootd.Base.{
  ℕ, ◌≤◌, ◌≡◌, ◌≢◌, ◌⊎◌, inl, inr, true, false, some, List, ◌==◌, ltb, ap, ◌∙◌, ==_iff, get_elem?,
  arith, Bool-cases, strcmp_eq, suc, Option-cases,
}
use bootd.Server.State.{Host, Listener, World, link}
use bootd.Server.Run.{done}
use bootd.Server.System.{System}
use bootd.Server.Packet.{u16, slice}
use bootd.Util.Walk.Found.{IsRegistry, host_of}
use bootd.Rarp.{RarpHeader, is_rarp, rarp_header, ethertype_revarp}
use bootd.Rarp.Silent.{IsRequest, effect, rarp_handler-effect}
use bootd.Rmp.Packet.{sap_hp}
use bootd.Daemon.Network.{Network, Captured, frame, broken}
use bootd.Daemon.Receive.{link_pcap_callback, receive}

-- A frame that holds its addresses and the first byte behind its type, is no RARP, and is no 802.3
-- packet for HP's access point.
pub record IsForeign (pkt : List ℕ) : Type 0 where
  pub saddr : List ℕ
  pub has_saddr : slice pkt 6 6 ≡ some saddr
  pub type : ℕ
  pub has_type : u16 pkt 12 ≡ some type
  pub no_rarp : type ≢ ethertype_revarp
  pub dsap : ℕ
  pub has_dsap : get_elem? pkt 14 ≡ some dsap
  pub no_rmp : (1536 ≤ type) ⊎ (dsap ≢ sap_hp)

-- What a call of pcap_loop comes to: a failure, a RARP request or a foreign frame.
pub data Arrival (arp_hdr : ℕ) (c : Captured) : Type 0 where
  failure : c ≡ broken → Arrival arp_hdr c
  request :
      (pkt : List ℕ) (len : ℕ) (req : RarpHeader)
      → c ≡ frame pkt len
      → ((w : World) → IsRequest arp_hdr pkt len req w)
      → Arrival arp_hdr c
  foreign : (pkt : List ℕ) (len : ℕ) → c ≡ frame pkt len → IsForeign pkt → Arrival arp_hdr c

-- The arrivals at a listener, one for each call, which may all differ
abbrev pub Arrives : Network → (arp_hdr : ℕ) → Listener → Type 0
Arrives net arp_hdr l = (k : ℕ) → Arrival arp_hdr (net.pcap_next k l.fd)

abbrev pub counted : World → World
counted w = record w { calls = suc w.calls }

-- The world behind an arrival: only a RARP request makes a difference, in the ARP table.
abbrev pub arrived :
    System → {arp_hdr : ℕ} {c : Captured} → List (ℕ × Host) → Arrival arp_hdr c → World → World
arrived sys xs (failure h) w = counted w
arrived sys xs (request pkt len req h q) w =
    effect sys (counted w) req (host_of (λ g. strcmp_eq g.eth req.tha) xs)
arrived sys xs (foreign pkt len h f) w = counted w

pub IsRegistry-counted :
    {w : World} {xs : List (ℕ × Host)} → IsRegistry w xs → IsRegistry (counted w) xs
IsRegistry-counted r = record { chain = r.chain; room = r.room; named = r.named }

slice-header :
    (pkt : List ℕ) (req : RarpHeader) (w : World)
    → rarp_header pkt w ≡ done req w
    → (s : List ℕ) × (slice pkt 6 6 ≡ some s)
unfolding rarp_header
slice-header pkt req w h = elim (Option-cases (slice pkt 0 6)) [
  | inl e0 ↦ cc (simp e0 at h)
  | inr (d, e0) ↦ elim (Option-cases (slice pkt 6 6)) [
    | inr (s, e) ↦ (s, e)
    | inl e ↦ cc (simp (e0, e) at h)
  ]
]

u16-is_rarp :
    (pkt : List ℕ) (w : World) → is_rarp pkt w ≡ done true w → u16 pkt 12 ≡ some ethertype_revarp
unfolding is_rarp
u16-is_rarp pkt w h = elim (Option-cases (u16 pkt 12)) [
  | inl e ↦ cc (simp e at h)
  | inr (t, e) ↦ elim (Bool-cases (t == ethertype_revarp)) [
    | inl y ↦ e ∙ ap some ((==_iff t ethertype_revarp).0 y)
    | inr n ↦ ground (arith, e, n)
  ]
]

module _ (sys : System) (net : Network) (arp_hdr : ℕ) where
  callback-foreign :
      (l : Listener) (pkt : List ℕ) (len : ℕ) (w : World)
      → IsForeign pkt
      → link_pcap_callback sys net arp_hdr l pkt len w ≡ done tt w
  unfolding link_pcap_callback
  callback-foreign l pkt len w f =
      let t : (f.type == ethertype_revarp) ≡ false = ground (arith, f.no_rarp) in
      elim f.no_rmp [
        | inl big ↦
            let b : ltb f.type 1536 ≡ false = ground arith in simp (f.has_saddr, f.has_type, t, b)
        | inr other ↦
            let d : (f.dsap == sap_hp) ≡ false = ground (arith, other) in
            elim (Bool-cases (ltb f.type 1536)) [
              | inr b ↦ simp (f.has_saddr, f.has_type, t, b)
              | inl b ↦ simp (f.has_saddr, f.has_type, t, b, f.has_dsap, d)
            ]
      ]

  -- On a link listener, in a registry that ends, what arrives has its effect, and receive returns.
  pub receive-arrived :
      (l : Listener) (w : World) {xs : List (ℕ × Host)}
      (a : Arrival arp_hdr (net.pcap_next w.calls l.fd))
      → l.type ≡ link
      → IsRegistry w xs
      → receive sys net arp_hdr l w ≡ done tt (arrived sys xs a w)
  unfolding receive
  receive-arrived l w (failure h) k r = simp (k, h)
  receive-arrived l w {xs} (request pkt len req h q) k r =
      let c = counted w in
      let (s, es) = slice-header pkt req c (q c).header in
      simp (
        k,
        h,
        es,
        u16-is_rarp pkt c (q c).ours,
        rarp_handler-effect sys arp_hdr l pkt len req k (IsRegistry-counted r) (q c),
      )
  receive-arrived l w (foreign pkt len h f) k r =
      simp (k, h, callback-foreign l pkt len (counted w) f)
