-- ===== src/Daemon/Main/Loop.antt =====
-- Any number of rounds over link listeners.
use bootd.Base.{none, Option, ℕ, zero, suc, ◌<◌, ◌≡◌, refl, ap, ◌∙◌, some, List, length}
use bootd.Server.State.{Host, Listener, World}
use bootd.Server.Run.{done}
use bootd.Server.System.{System}
use bootd.Util.Walk.Found.{IsRegistry}
use bootd.Listener.Registry.Deleted.{Distinct}
use bootd.Listener.Registry.Added.{Alive}
use bootd.Daemon.Network.{Network}
use bootd.Daemon.Select.{fd_set_of, listener_select}
use bootd.Daemon.Select.Served.{selected}
use bootd.Daemon.Select.Frames.{Arrivals, after_round, listener_select-round}
use bootd.Daemon.Main.{server_loop}

-- What the rounds start from: a registry of hosts that ends, and these listeners, distinct and not
-- released.
pub record Ready (w : World) (ls : List Listener) (xs : List (ℕ × Host)) : Type 0 where
  pub registry : IsRegistry w xs
  pub listeners : w.g_listeners ≡ ls
  pub alive : Alive ls w.freed

Ready-selected :
    (w : World) (ls : List Listener) (xs : List (ℕ × Host))
    → Ready w ls xs
    → Ready (selected w) ls xs
Ready-selected w ls xs r = record {
  registry = record { chain = r.registry.chain; room = r.registry.room; named = r.registry.named };
  listeners = r.listeners;
  alive = r.alive;
}

module _ (sys : System) (net : Network) (arp_hdr : ℕ) (n : ℕ) (ls : List Listener) (fds : List ℕ)
    (xs : List (ℕ × Host)) (ar : Arrivals sys net arp_hdr ls) (d : Distinct ls)
    (room : length ls < n) (set : fd_set_of ls ≡ some fds) where
  -- A round: where select fails there is nothing to receive.
  abbrev pub round : World → Option (List ℕ) → World
  round w none = selected w
  round w (some ready) = after_round sys net arp_hdr ready xs ls ar (selected w)

  -- So many rounds, each with what select then reports and what then arrives
  abbrev pub after_rounds : ℕ → World → World
  after_rounds zero w = w
  after_rounds (suc k) w = after_rounds k (round w (net.select w.calls fds))

  select-Ready :
      (w : World) (o : Option (List ℕ))
      → Ready w ls xs
      → net.select w.calls fds ≡ o
      → (listener_select sys net arp_hdr n w ≡ done tt (round w o)) × Ready (round w o) ls xs
  select-Ready w none r fails =
      let here : fd_set_of w.g_listeners ≡ some fds = ap fd_set_of r.listeners ∙ set in
      (unfold listener_select in simp (here, fails), Ready-selected w ls xs r)
  select-Ready w (some ready) r sel =
      let (e, q) =
        listener_select-round sys net arp_hdr n ready fds w ls xs ar r.listeners r.registry d
          r.alive room set sel in
      (
        e,
        record {
          registry = q.registry;
          listeners = q.listeners ∙ r.listeners;
          alive = rw q.freed r.alive;
        },
      )

  -- In a registry that ends, where all listeners are distinct link listeners that are not released,
  -- with descriptors below FD_SETSIZE, each call of pcap_loop at one of them fails or hands over a
  -- RARP request or a frame for neither RARP nor RMP, which may differ from call to call, and there
  -- are more rounds to a walk than listeners: any number of rounds of the server's loop returns.
  -- A round in which select fails changes nothing, and one in which it reports listeners only the
  -- ARP table, by an entry for each RARP request for a registered host that may use rarp, where
  -- the socket and the ioctl for it work. Behind the rounds the registry still ends and the
  -- listeners are the same, none of them released.
  pub server_loop-Ready :
      (rounds : ℕ) (w : World)
      → Ready w ls xs
      → (server_loop sys net arp_hdr n rounds w ≡ done tt (after_rounds rounds w))
        × Ready (after_rounds rounds w) ls xs
  unfolding server_loop
  server_loop-Ready zero w r = (refl, r)
  server_loop-Ready (suc k) w r =
      let (e, r') = select-Ready w (net.select w.calls fds) r refl in
      let (e', r'') = server_loop-Ready k (round w (net.select w.calls fds)) r' in
      (simp (e, e'), r'')
