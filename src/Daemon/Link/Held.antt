-- ===== src/Daemon/Link/Held.antt =====
-- Which handles `listener_new_link` leaves open.
use bootd.Base.{ℕ, suc, ◌≡◌, refl, Bool, true, false, Option, none, some, ◌∷◌, Text}
use bootd.Server.State.{Listener, World, link}
use bootd.Server.Run.{done}
use bootd.Daemon.Link.{LinkLibrary, Setup, called, init_lnet}
use bootd.Daemon.Link.New.{Held, setup_new, built, held_by, link_setup, listener_new_link}
use bootd.Daemon.Link.Stages.{Stage, SetUp, lnet-SetUp}

-- What may come back from `listener_new_link`: nothing, and no handle more is open; or a link
-- listener at a new address, with a name, and one handle of each library more.
abbrev pub LinkOutcome : (id : ℕ) → Held → Option Listener → Held → Type 0
LinkOutcome id before none after = after ≡ before
LinkOutcome id before (some l) after =
    (h g : ℕ) × (n : Text) × (after ≡ record { lnets = h ∷ before.lnets; pcaps = g ∷ before.pcaps })
    × (l.type ≡ link)
    × (l.name ≡ some n)
    × (l.id ≡ id)

built-outcome :
    (held : Held) (id : ℕ) (r : Bool × Setup)
    → SetUp held r
    → LinkOutcome id held (built id r) (held_by r.1)
built-outcome held id (false, s) h = h
built-outcome held id (true, s) (h, g, n, t, e) = (h, g, n, cc (t.lnets, t.pcaps), refl, e, refl)

-- For a device that is not null, listener_new_link returns, on whatever the libraries answer, and
-- leaves all globals but the counters as they were. Where it returns no listener, the handles that
-- are open are those that were open before, so each step that fails is undone; where it returns
-- one, this is a link listener with a name and an address of its own, and exactly one handle of
-- libnet and one of pcap were opened.
pub listener_new_link-outcome :
    (lib : LinkLibrary) (device : Text) (filter : Option Text) (held : Held) (w : World)
    → (o : Option Listener) × (after : Held) × (k : ℕ) × (listener_new_link lib
          (some device)
          filter
          held
          w
        ≡ done (o, after) (record w { calls = k; next_id = suc w.next_id }))
      × LinkOutcome w.next_id held o after
unfolding listener_new_link
listener_new_link-outcome lib device filter held w =
    let s = setup_new w.calls held in
    let start : Stage held none none (called s) = record {
      lnet_is = refl;
      pcap_is = refl;
      lnets = refl;
      pcaps = refl;
    } in
    let r = link_setup lib device filter s in
    let up : SetUp held r =
      unfold link_setup in
      unfold init_lnet in
      lnet-SetUp lib held device filter (lib.libnet_init w.calls device) (called s) start in
    (built w.next_id r, held_by r.1, r.1.calls, refl, built-outcome held w.next_id r up)
