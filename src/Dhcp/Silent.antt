-- ===== src/Dhcp/Silent.antt =====
-- The DHCP handler answers nothing.
use bootd.Base.{
  true, leb, ◌&&◌, if◌then◌else◌, ◌∙◌, ◌≤◌, not, length, take, drop, get_elem?-some, strcmp_eq, ℕ,
  zero, suc, ◌≡◌, refl, Bool, false, Option, none, some, List, [], ◌∷◌, Text, get_elem?, arith,
  Option-cases, inl, inr,
}
use bootd.Server.State.{EtherAddr, Host, Listener, World}
use bootd.Server.Run.{done, fault}
use bootd.Server.Reader.{IsReader, reader_rules}
use bootd.Server.Packet.{slice-some}
use bootd.Util.Walk.Found.{IsRegistry, ether2host-first, first_cases}
use bootd.Util.Walk.{walk, util_ether2host}
use bootd.Host.Memory.{read_host}
use bootd.Dhcp.{dhcp_handler, dhcp_dispatch, for_other_server, malformed, string_at}

walk-same :
    (test : Host → Option Bool) (rounds : ℕ) (p : Option ℕ) (w v : World) (a : Option ℕ)
    → walk test rounds p w ≡ done a v
    → v ≡ w
unfolding walk
walk-same test zero p w v a e = cc
walk-same test (suc k) none w v a e = cc
walk-same test (suc k) (some p) w v a e = elim (Option-cases (get_elem? w.hosts p)) [
  | inl n ↦ ground arith
  | inr (h, eh) ↦ ground (arith, walk-same test k h.next w v a)
]

IsReader-ether2host : (eth : List ℕ) → IsReader (util_ether2host eth)
unfolding util_ether2host
IsReader-ether2host eth = record { keeps = λ w v a e. walk-same _ _ _ w v a e }

IsReader-read_host : (p : ℕ) → IsReader (read_host p)
unfolding read_host
IsReader-read_host p = record { keeps = λ w v a e. ground arith }

IsReader-other : (l : Listener) (sname : Text) → IsReader (for_other_server l sname)
unfolding for_other_server
IsReader-other l [] = search reader_rules
IsReader-other l (c ∷ cs) = search reader_rules

IsReader-malformed : (packet : List ℕ) (sname : Text) → IsReader (malformed packet sname)
unfolding malformed
IsReader-malformed packet sname = search reader_rules

IsReader-dispatch : (op : ℕ) (p : Option ℕ) → IsReader (dhcp_dispatch op p)
unfolding dhcp_dispatch
IsReader-dispatch op none = search reader_rules
IsReader-dispatch op (some p) = search (reader_rules, IsReader-read_host)

dhcp_handler-IsReader : (l : Listener) (packet : List ℕ) → IsReader (dhcp_handler l packet)
unfolding dhcp_handler
dhcp_handler-IsReader l packet =
    search
      (reader_rules, IsReader-other, IsReader-malformed, IsReader-ether2host, IsReader-dispatch)
      depth 12

-- Whatever arrives, a call of the DHCP handler that returns has changed nothing: it sends no answer,
-- and touches no host, session or listener.
pub dhcp_handler-silent :
    (l : Listener) (packet : List ℕ) (w v : World) → dhcp_handler l packet w ≡ done tt v → v ≡ w
dhcp_handler-silent l packet w v e = (dhcp_handler-IsReader l packet).keeps w v tt e

lookup_done :
    {w : World} {xs : List (ℕ × Host)}
    → IsRegistry w xs
    → (op : ℕ) (eth : EtherAddr)
    → (p : Option ℕ) × (util_ether2host eth w ≡ done p w) × (dhcp_dispatch op p w ≡ done tt w)
unfolding dhcp_dispatch read_host
lookup_done {w} {xs} r op eth =
    elim (first_cases (λ h. strcmp_eq h.eth eth) w.hosts w.g_hosts xs r.chain) [
      | inl (e1, e2) ↦ (none, ether2host-first r eth ∙ simp e1, refl)
      | inr (i, h, e1, e2, e3, e4) ↦ (some i, ether2host-first r eth ∙ simp e1, ground arith)
    ]

abbrev is_empty : Text → Bool
is_empty [] = true
is_empty (c ∷ cs) = false

-- The packets whose server name the handler compares with the name of the listener: those that
-- name a server, with at most 16 hops and names that are not too long.
abbrev pub compares : (hops : ℕ) → (sname file : Text) → Bool
compares hops sname file =
    leb hops 16 && leb (length sname) 64 && leb (length file) 128 && not (is_empty sname)

-- In a registry that ends, on a listener without a name, which is every udp listener, for a packet
-- that holds its fields, with its two names closed by a 0: the handler faults exactly where the
-- packet names a server, its hops are at most 16 and its names at most 64 and 128 bytes long, at
-- the null name of the listener; for every other packet it returns, and has changed nothing.
pub dhcp_handler-nameless :
    (l : Listener) (packet : List ℕ) (hops : ℕ) (sname file : Text) (w : World)
    (xs : List (ℕ × Host))
    → IsRegistry w xs
    → l.name ≡ none
    → 34 ≤ length packet
    → get_elem? packet 3 ≡ some hops
    → string_at packet 44 ≡ some sname
    → string_at packet 108 ≡ some file
    → dhcp_handler l packet w ≡ (if compares hops sname file then fault else done tt w)
unfolding dhcp_handler malformed for_other_server
dhcp_handler-nameless l packet hops [] file w xs r el le eh es ef =
    let (op, eo) = get_elem?-some packet 0 (omega arith) in
    let (p, ep, ed) = lookup_done r op (take 6 (drop 28 packet)) in
    ground (arith, slice-some packet 28 6)
dhcp_handler-nameless l packet hops (c ∷ cs) file w xs r el le eh es ef =
    let (op, eo) = get_elem?-some packet 0 (omega arith) in ground arith
