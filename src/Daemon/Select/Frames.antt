-- ===== src/Daemon/Select/Frames.antt =====
-- A round of the daemon over link listeners with RARP requests and foreign frames.
use bootd.Base.{
  suc, ℕ, ◌<◌, ◌≡◌, refl, Option, none, some, List, [], ◌∷◌, if◌then◌else◌, length, Bool-cases, inl,
  inr, ◌==◌, ◌∙◌, sym,
}
use bootd.Server.State.{EtherAddr, IpAddr, Host, Listener, World, link}
use bootd.Server.Run.{done}
use bootd.Server.System.{System}
use bootd.Services.Ids
use bootd.Services.Ids.{allows}
use bootd.Util.Walk.Found.{IsRegistry}
use bootd.Listener.Registry.Deleted.{Distinct}
use bootd.Listener.Registry.Added.{Alive}
use bootd.Rarp.{RarpHeader, arpop_revrequest}
use bootd.Rarp.Silent.{effect, with_entry}
use bootd.Daemon.Network.{Network, Captured}
use bootd.Daemon.Receive.Frames.{
  Arrival, Arrives, failure, request, foreign, arrived, counted, IsRegistry-counted,
  receive-arrived,
}
use bootd.Daemon.Select.{fd_set_of, listener_select}
use bootd.Daemon.Select.Served.{Steady, selected, among, reported, receive_each, listener_select-on}

-- What a round keeps: the hosts, the list of listeners, and which are released.
pub record Kept (w v : World) (xs : List (ℕ × Host)) : Type 0 where
  pub registry : IsRegistry v xs
  pub listeners : v.g_listeners ≡ w.g_listeners
  pub freed : v.freed ≡ w.freed

Kept-counted : (w v : World) (xs : List (ℕ × Host)) → Kept w v xs → Kept w (counted v) xs
Kept-counted w v xs k = record {
  registry = IsRegistry-counted k.registry;
  listeners = k.listeners;
  freed = k.freed;
}

Kept-noted :
    (w v : World) (xs : List (ℕ × Host)) (us : List (IpAddr × EtherAddr))
    → Kept w v xs
    → Kept w (record v { arp_updates = us }) xs
Kept-noted w v xs us k = record {
  registry = record { chain = k.registry.chain; room = k.registry.room; named = k.registry.named };
  listeners = k.listeners;
  freed = k.freed;
}

module _ (sys : System) (w : World) (xs : List (ℕ × Host)) where
  Kept-entry :
      (v : World) (h : Host) (s : Option ℕ) → Kept w v xs → Kept w (with_entry sys v h s) xs
  Kept-entry v h none k = Kept-counted w v xs k
  Kept-entry v h (some s) k =
      let twice = Kept-counted w (counted v) xs (Kept-counted w v xs k) in
      elim (Bool-cases (sys.siocsarp (suc v.calls) s h.ip h.eth)) [
        | inl y ↦ rw y (Kept-noted w (counted (counted v)) xs ((h.ip, h.eth) ∷ v.arp_updates) twice)
        | inr n ↦ rw n twice
      ]

  Kept-effect :
      (v : World) (req : RarpHeader) (o : Option Host)
      → Kept w v xs
      → Kept w (effect sys v req o) xs
  Kept-effect v req none k = k
  Kept-effect v req (some h) k = elim (Bool-cases (allows h.service Ids.rarp)) [
    | inr bad ↦ rw bad k
    | inl good ↦ elim (Bool-cases (req.op == arpop_revrequest)) [
      | inr other ↦ rw (good, other) k
      | inl is ↦ rw (good, is) (Kept-entry v h (sys.arp_socket v.calls) k)
    ]
  ]

  Kept-arrived :
      (v : World) {arp_hdr : ℕ} {c : Captured} (a : Arrival arp_hdr c)
      → Kept w v xs
      → Kept w (arrived sys xs a v) xs
  Kept-arrived v (failure h) k = Kept-counted w v xs k
  Kept-arrived v (request pkt len req h q) k = Kept-effect (counted v) req _ (Kept-counted w v xs k)
  Kept-arrived v (foreign pkt len h f) k = Kept-counted w v xs k

module _ (sys : System) (net : Network) (arp_hdr : ℕ) where
  -- Link listeners, and what arrives at each.
  abbrev pub Arrivals : List Listener → Type 0
  Arrivals [] = Unit {0}
  Arrivals (l ∷ ls) = ((l.type ≡ link) × Arrives net arp_hdr l) × Arrivals ls

  -- The arrivals at the ready listeners, in the order of the list
  abbrev pub after_round :
      (ready : List ℕ) → List (ℕ × Host) → (ls : List Listener) → Arrivals ls → World → World
  after_round ready xs [] ar w = w
  after_round ready xs (l ∷ ls) ar w =
      after_round ready xs ls ar.1
        (if among l.fd ready then arrived sys xs (ar.0.1 w.calls) w else w)

  module _ (ready : List ℕ) (xs : List (ℕ × Host)) (w : World) where
    pub Steady-Arrivals :
        (ls : List Listener) → Arrivals ls → Steady sys net arp_hdr ready (λ v. Kept w v xs) ls
    Steady-Arrivals [] ar = tt
    Steady-Arrivals (l ∷ ls) ar = (
      λ y v k. (
        _,
        receive-arrived sys net arp_hdr l v (ar.0.1 v.calls) ar.0.0 k.registry,
        Kept-arrived sys w xs v (ar.0.1 v.calls) k,
      ),
      Steady-Arrivals ls ar.1,
    )

    receive_each-after_round :
        (v : World) (ls : List Listener) (ar : Arrivals ls)
        → Kept w v xs
        → receive_each sys net arp_hdr (reported ready ls) v
          ≡ done tt (after_round ready xs ls ar v)
    unfolding receive_each
    receive_each-after_round v [] ar k = refl
    receive_each-after_round v (l ∷ ls) ar k = elim (Bool-cases (among l.fd ready)) [
      | inl y ↦
          let a = ar.0.1 v.calls in
          simp (
            y,
            receive-arrived sys net arp_hdr l v a ar.0.0 k.registry,
            receive_each-after_round (arrived sys xs a v) ls ar.1 (Kept-arrived sys w xs v a k),
          )
      | inr passed ↦ simp (passed, receive_each-after_round v ls ar.1 k)
    ]

  -- A round over a list that has a name
  pub listener_select-round :
      (rounds : ℕ) (ready fds : List ℕ) (w : World) (ls : List Listener) (xs : List (ℕ × Host))
      (ar : Arrivals ls)
      → w.g_listeners ≡ ls
      → IsRegistry w xs
      → Distinct ls
      → Alive ls w.freed
      → length ls < rounds
      → fd_set_of ls ≡ some fds
      → net.select w.calls fds ≡ some ready
      → (listener_select sys net arp_hdr rounds w
          ≡ done tt (after_round ready xs ls ar (selected w)))
        × Kept w (after_round ready xs ls ar (selected w)) xs
  listener_select-round rounds ready fds w ls xs ar here r d a lt set sel =
      let k : Kept w (selected w) xs = record {
        registry = IsRegistry-counted r;
        listeners = refl;
        freed = refl;
      } in
      let (v, e, e', q) =
        listener_select-on sys net arp_hdr (λ v. Kept w v xs) rounds ready fds w ls here
          (λ v q. (q.listeners ∙ here, rw q.freed a)) d (Steady-Arrivals ready xs w ls ar) k lt set
          sel in
      let ran = receive_each-after_round ready xs w (selected w) ls ar k in
      let same : v ≡ after_round ready xs ls ar (selected w) = cc in
      (e ∙ sym e' ∙ ran, rw (sym same) q)

-- In a registry that ends, where all listeners are distinct link listeners that are not released,
-- with descriptors below FD_SETSIZE, and each call of pcap_loop at one of them fails or hands over
-- a RARP request or a frame for neither RARP nor RMP, there are more rounds to the walk than
-- listeners, and select returns: listener_select receives
-- at each listener that select reports, in the order of the list, and returns. The one change that
-- it leaves behind is in the ARP table: each RARP request for a registered host that may use rarp
-- makes the entry of that host, where the socket for it is opened and the ioctl on it works. No
-- frame is answered.
pub listener_select-after_round :
    (sys : System) (net : Network) (arp_hdr rounds : ℕ) (ready fds : List ℕ) (w : World)
    (xs : List (ℕ × Host)) (ar : Arrivals sys net arp_hdr w.g_listeners)
    → IsRegistry w xs
    → Distinct w.g_listeners
    → Alive w.g_listeners w.freed
    → length w.g_listeners < rounds
    → fd_set_of w.g_listeners ≡ some fds
    → net.select w.calls fds ≡ some ready
    → listener_select sys net arp_hdr rounds w
      ≡ done tt (after_round sys net arp_hdr ready xs w.g_listeners ar (selected w))
listener_select-after_round sys net arp_hdr rounds ready fds w xs ar r d a lt set sel =
    (listener_select-round sys net arp_hdr rounds ready fds w w.g_listeners xs ar refl r d a lt set
      sel).0
