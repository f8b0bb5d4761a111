-- ===== src/Rarp/Silent.antt =====
-- What a RARP request leads to on a link listener.
use bootd.Base.{
  ℕ, ◌+◌, ◌≤◌, ◌≡◌, refl, suc, ◌++◌, negsuc, true, false, ltb, Option, none, some, List, ◌∷◌, ◌==◌,
  if◌then◌else◌, get_elem?, arith, Bool-cases, inl, inr, strcmp_eq,
}
use bootd.Server.State.{Host, Listener, World, link}
use bootd.Server.Run.{done}
use bootd.Server.System.{System}
use bootd.Services.Ids
use bootd.Services.Ids.{allows}
use bootd.Util.Walk.Found.{IsRegistry, ether2host-first, host_of, first_cases}
use bootd.Listener.Send.{send}
use bootd.Host.Memory.{read_host}
use bootd.Rarp.{
  RarpHeader, is_rarp, rarp_header, rarp_reply, reply_length, rarp_updatetable, arp_request,
  arp_set, send_reply, answer, rarp_handler, arpop_revrequest,
}

-- The world behind the ioctl, if there is a socket
abbrev pub with_entry : System → World → Host → Option ℕ → World
with_entry sys w h none = record w { calls = suc w.calls }
with_entry sys w h (some s) =
    if sys.siocsarp (suc w.calls) s h.ip h.eth
    then record w { calls = suc (suc w.calls); arp_updates = (h.ip, h.eth) ∷ w.arp_updates }
    else record w { calls = suc (suc w.calls) }

-- The world behind the attempt to enter a host into the ARP table: the entry is there where the
-- socket was opened and the ioctl worked.
abbrev pub arp_entered : System → World → Host → World
arp_entered sys w h = with_entry sys w h (sys.arp_socket w.calls)

request-entered :
    (sys : System) (h : Host) (w : World) (s : Option ℕ)
    → arp_request sys h.ip h.eth s (record w { calls = suc w.calls })
      ≡ done tt (with_entry sys w h s)
unfolding arp_request arp_set
request-entered sys h w none = refl
request-entered sys h w (some s) = elim (Bool-cases (sys.siocsarp (suc w.calls) s h.ip h.eth)) [
  | inl y ↦ simp y
  | inr n ↦ simp n
]

updatetable-entered :
    (sys : System) (h : Host) (w : World)
    → rarp_updatetable sys h.ip h.eth w ≡ done tt (arp_entered sys w h)
unfolding rarp_updatetable
updatetable-entered sys h w = request-entered sys h w (sys.arp_socket w.calls)

send-short :
    (sys : System) (l : Listener) (packet : List ℕ) (w : World)
    → l.type ≡ link
    → send sys l none packet reply_length w ≡ done (negsuc 0) w
unfolding send
send-short sys l packet w k = ground arith

send_reply-arp :
    (sys : System) (l : Listener) (h : Host) (req : RarpHeader) (w : World)
    → l.type ≡ link
    → send_reply sys l h req w ≡ done tt (arp_entered sys w h)
unfolding send_reply
send_reply-arp sys l h req w k =
    let v = arp_entered sys w h in
    simp
      (updatetable-entered sys h w, send-short sys l (rarp_reply l h req ++ sys.stale v.calls) v k)

-- What the handler does with a request, as a function of the host that the target address names.
abbrev pub effect : System → World → RarpHeader → Option Host → World
effect sys w req none = w
effect sys w req (some h) =
    if allows h.service Ids.rarp
    then (if req.op == arpop_revrequest then arp_entered sys w h else w)
    else w

module _ (sys : System) (l : Listener) (w : World) (k : l.type ≡ link) where
  answer-effect :
      (req : RarpHeader) (p : ℕ) (g : Host)
      → get_elem? w.hosts p ≡ some g
      → answer sys l req (some p) w ≡ done tt (effect sys w req (some g))
  unfolding answer read_host
  answer-effect req p g eg = elim (Bool-cases (allows g.service Ids.rarp)) [
    | inr bad ↦ simp (eg, bad)
    | inl good ↦ elim (Bool-cases (req.op == arpop_revrequest)) [
      | inr other ↦ simp (eg, good, other)
      | inl request ↦ simp (eg, good, request, send_reply-arp sys l g req w k)
    ]
  ]

-- A packet that is long enough, passes the tests and has this header.
pub record IsRequest (arp_hdr : ℕ) (packet : List ℕ) (pktlen : ℕ) (req : RarpHeader) (w : World)
    : Type 0 where
  pub long : 14 + arp_hdr ≤ pktlen
  pub ours : is_rarp packet w ≡ done true w
  pub header : rarp_header packet w ≡ done req w

-- On a link listener, in a registry that ends, a RARP request has no answer: the reply of 60 bytes
-- is below the 62 that the send routine wants, and is dropped. The one effect is on the ARP
-- table: exactly for a request whose target address is that of a registered host that may use rarp
-- a socket is opened, and where that and the ioctl on it work, the host's entry is made.
pub rarp_handler-effect :
    (sys : System) (arp_hdr : ℕ) (l : Listener) (packet : List ℕ) (pktlen : ℕ) (req : RarpHeader)
    {w : World} {xs : List (ℕ × Host)}
    → l.type ≡ link
    → IsRegistry w xs
    → IsRequest arp_hdr packet pktlen req w
    → rarp_handler sys arp_hdr l packet pktlen w
      ≡ done tt (effect sys w req (host_of (λ h. strcmp_eq h.eth req.tha) xs))
unfolding rarp_handler
rarp_handler-effect sys arp_hdr l packet pktlen req {w} {xs} k r q =
    let long : ltb pktlen (14 + arp_hdr) ≡ false = ground (arith, q.long) in
    elim (first_cases (λ h. strcmp_eq h.eth req.tha) w.hosts w.g_hosts xs r.chain) [
      | inl (e1, e2) ↦
          simp (long, q.ours, q.header, ether2host-first r req.tha, e1, e2) (unfold answer in refl)
      | inr (i, h, e1, e2, e3, e4) ↦ simp (
        long,
        q.ours,
        q.header,
        ether2host-first r req.tha,
        e1,
        e2,
        answer-effect sys l w k req i h e3,
      )
    ]
