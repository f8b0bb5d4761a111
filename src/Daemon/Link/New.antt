-- ===== src/Daemon/Link/New.antt =====
-- `listener_new_link` and `i_listener_link_cleanup` of src/listener.c.
use bootd.Base.{ℕ, suc, Bool, true, false, Option, none, some, List, [], ◌∷◌, Text}
use bootd.Server.State.{Listener, link}
use bootd.Server.Run.{Cmd, pure, done}
use bootd.Daemon.Link.{
  LinkLibrary, Setup, close_handle, init_lnet, init_addr, init_pcap, init_filter,
}

-- `i_listener_link_cleanup_lnet`
unfoldable pub close_lnet : Option ℕ → Setup → Setup
close_lnet none s = s
close_lnet (some h) s = record s { lnet = none; open_lnets = close_handle h s.open_lnets }

-- `i_listener_link_cleanup_pcap`
unfoldable pub close_pcap : Option ℕ → Setup → Setup
close_pcap none s = s
close_pcap (some h) s = record s { pcap = none; fd = 0; open_pcaps = close_handle h s.open_pcaps }

-- `i_listener_link_cleanup` of a listener that is not yet in the list
unfoldable pub link_cleanup : Setup → Setup
unfolding close_lnet close_pcap
link_cleanup s = let t = close_lnet s.lnet s in close_pcap t.pcap t

-- A step of `listener_new_link`: what follows, or the clean-up where it failed
unfoldable pub or_cleanup : Bool × Setup → (Setup → Bool × Setup) → Bool × Setup
unfolding link_cleanup
or_cleanup (false, s) next = (false, link_cleanup s)
or_cleanup (true, s) next = next s

-- The handles that libnet and pcap hold open for the listeners of the process
pub record Held : Type 0 where
  pub lnets : List ℕ
  pub pcaps : List ℕ

-- `memset` of the new listener
abbrev pub setup_new : (calls : ℕ) → Held → Setup
setup_new calls held = record {
  calls = calls;
  open_lnets = held.lnets;
  open_pcaps = held.pcaps;
  lnet = none;
  pcap = none;
  dlt = 0;
  fd = 0;
  ip = 0;
  eth = 0 ∷ 0 ∷ 0 ∷ 0 ∷ 0 ∷ 0 ∷ [];
  name = none;
}

-- The listener that is returned; its service is the null that `l_service_start_link` gives.
abbrev pub built : (id : ℕ) → Bool × Setup → Option Listener
built id (false, s) = none
built id (true, s) = some (record {
  id = id;
  fd = s.fd;
  ip = s.ip;
  eth = s.eth;
  name = s.name;
  type = link;
  to = record { addr = 0; port = 0 };
  service = none;
})

abbrev pub held_by : Setup → Held
held_by s = record { lnets = s.open_lnets; pcaps = s.open_pcaps }

module _ (lib : LinkLibrary) where
  -- The four steps
  unfoldable pub link_setup : (device : Text) → (filter : Option Text) → Setup → Bool × Setup
  unfolding or_cleanup
  link_setup device filter s = or_cleanup (init_lnet lib device s) (λ a.
      or_cleanup (init_addr lib a) (λ b.
        or_cleanup (init_pcap lib device b)
          (λ c. or_cleanup (init_filter lib device filter c) (λ d. (true, d)))))

  -- `listener_new_link`, with the handles that are open before and behind it
  unfoldable pub listener_new_link :
      (device filter : Option Text) → Held → Cmd (Option Listener × Held)
  listener_new_link none filter held = pure (none, held)
  listener_new_link (some device) filter held = λ w.
      let r = link_setup device filter (setup_new w.calls held) in
      done (built w.next_id r, held_by r.1)
        (record w { calls = r.1.calls; next_id = suc w.next_id })
