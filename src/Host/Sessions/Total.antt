-- ===== src/Host/Sessions/Total.antt =====
-- New sessions: `host_session_add` returns and keeps the invariant.
use bootd.Base.{
  ℕ, zero, suc, ◌≤◌, ◌<◌, ◌≡◌, ◌≢◌, refl, Bool, true, false, none, some, List, [], ◌∷◌, ◌++◌, ◌==◌,
  length, get_elem?, set, arith, ℤ, pos, negsuc, ltb_ℤ, incr, get_elem?-set, get_elem?-lt,
  length-set, ◌⊎◌, inl, inr, Bool-cases, get_elem?-append, get_elem?-append_last,
  get_elem?-append_cases,
}
use bootd.Server.State.{Host, Session, World, Listener}
use bootd.Server.System.{System}
use bootd.Listener.Registry.{search_fd}
use bootd.Host.Sessions.{new_session, open_session, host_session_add}
use bootd.Host.Sessions.Count.{SessionsOk, count-set, Quiet}
use bootd.Host.Sessions.Keeps.{Frame, Frame-trans, Keeps, Idle, host_session_delete-Keeps}
use bootd.Host.Sessions.Timeouts.{IsPath, still_there, timeout_all-Keeps}

-- The host `p` with a new session.
abbrev opened : World → ℕ → Host → Session → World
opened w p h x = record w {
  calls = suc w.calls;
  g_n_sessions = incr w.g_n_sessions;
  hosts = set w.hosts p (record h { session = some (length w.sessions) });
  sessions = w.sessions ++ some x ∷ [];
}

Frame-opened :
    (w : World) (p : ℕ) (h : Host) (x : Session)
    → get_elem? w.hosts p ≡ some h
    → Frame w (opened w p h x)
Frame-opened w p h x eh =
    let g = record h { session = some (length w.sessions) } in
    record {
      hosts = λ q. ground (arith, get_elem?-lt w.hosts p eh, get_elem?-set w.hosts p q g);
      roots = refl;
      sizes = length-set w.hosts p g;
      listeners = refl;
      freed = refl;
      maximum = refl;
      sent = refl;
    }

new_session-Quiet :
    (service sid now : ℕ) (ls : List Listener) → Quiet (new_session service sid now).fds ls
unfolding new_session
new_session-Quiet service sid now ls =
    let unused : ◌≢◌ {A = ℕ} 0 0 → search_fd 0 ls ≡ none = λ ne. absurd (ne refl) in
    (unused, (unused, (unused, (unused, (unused, (unused, (unused, (unused, tt))))))))

module _ (w : World) (p : ℕ) (h : Host) (x : Session) (ok : SessionsOk w)
    (eh : get_elem? w.hosts p ≡ some h) (es : h.session ≡ none)
    (quiet : Quiet x.fds w.g_listeners) where
  abbrev renewed : Host
  renewed = record h { session = some (length w.sessions) }

  -- A host with a session is `p` with the new one, or has it as before, and not at the new place.
  old_or_new :
      (q : ℕ) (g : Host) (t : ℕ)
      → get_elem? (set w.hosts p renewed) q ≡ some g
      → g.session ≡ some t
      → ((q ≡ p) × (t ≡ length w.sessions))
        ⊎ ((get_elem? w.hosts q ≡ some g) × (t < length w.sessions))
  old_or_new q g t eg et = elim (Bool-cases (p == q)) [
    | inl same ↦ inl (ground (arith, get_elem?-lt w.hosts p eh, get_elem?-set w.hosts p q renewed))
    | inr other ↦
        let eg' : get_elem? w.hosts q ≡ some g =
          ground (arith, get_elem?-lt w.hosts p eh, get_elem?-set w.hosts p q renewed) in
        inr (eg', get_elem?-lt w.sessions t (ok.live q g t eg' et).1)
  ]

  opened_live :
      (q : ℕ) (g : Host) (t : ℕ)
      → get_elem? (opened w p h x).hosts q ≡ some g
      → g.session ≡ some t
      → (y : Session) × (get_elem? (opened w p h x).sessions t ≡ some (some y))
  opened_live q g t eg et = elim (old_or_new q g t eg et) [
    | inl (_, e) ↦ (x, rw e (get_elem?-append_last w.sessions (some x)))
    | inr (eg', lt) ↦
        let (y, ey) = ok.live q g t eg' et in (y, get_elem?-append w.sessions (some x ∷ []) t ey)
  ]

  opened_apart :
      (q r : ℕ) (g k : Host) (t : ℕ)
      → get_elem? (opened w p h x).hosts q ≡ some g
      → get_elem? (opened w p h x).hosts r ≡ some k
      → g.session ≡ some t
      → k.session ≡ some t
      → q ≡ r
  opened_apart q r g k t eg ek etg etk =
      ground (arith, old_or_new q g t eg etg, old_or_new r k t ek etk, ok.apart q r g k t)

  opened-Quiet :
      (t : ℕ) (y : Session)
      → get_elem? (opened w p h x).sessions t ≡ some (some y)
      → Quiet y.fds w.g_listeners
  opened-Quiet t y e = elim (get_elem?-append_cases w.sessions (some x) (some y) t e) [
    | inl old ↦ ok.quiet t y old
    | inr (_, new) ↦ let same : x ≡ y = cc in rw same at quiet
  ]

  opened-SessionsOk : SessionsOk (opened w p h x)
  opened-SessionsOk = record {
    live = opened_live;
    apart = opened_apart;
    counted = ground (arith, count-set w.hosts p h renewed eh, ok.counted);
    quiet = opened-Quiet;
  }

no_overrun : (n m : ℤ) → ltb_ℤ n m ≡ true → ltb_ℤ m (incr n) ≡ false
no_overrun (pos n) m h = ground arith
no_overrun (negsuc zero) m h = ground arith
no_overrun (negsuc (suc n)) m h = ground arith

module _ (sys : System) where
  -- What a new session looks like from its host; or none was to be had.
  abbrev pub Answer : ℕ → (service sid : ℕ) → Bool → World → Type 0
  Answer p service sid true v =
      (h : Host) × (s : ℕ) × (x : Session) × (get_elem? v.hosts p ≡ some h)
      × (h.session ≡ some s)
      × (get_elem? v.sessions s ≡ some (some x))
      × (x.service ≡ service)
      × (x.sid ≡ sid)
      × (ltb_ℤ v.c_session_max v.g_n_sessions ≡ false)
  Answer p service sid false v = Idle p v × (ltb_ℤ v.g_n_sessions v.c_session_max ≡ false)

  open_session-Keeps :
      (w : World) (p : ℕ) (h : Host) (service sid : ℕ)
      → SessionsOk w
      → get_elem? w.hosts p ≡ some h
      → h.session ≡ none
      → ltb_ℤ w.g_n_sessions w.c_session_max ≡ true
      → Keeps
          (open_session sys p service sid (record w { g_n_sessions = incr w.g_n_sessions }))
          w
          (λ _ v. Answer p service sid true v)
  unfolding open_session
  open_session-Keeps w p h service sid ok eh es free =
      let x = new_session service sid (sys.time w.calls) in
      (
        tt,
        opened w p h x,
        ground arith,
        opened-SessionsOk w p h x ok eh es
            (new_session-Quiet service sid (sys.time w.calls) w.g_listeners),
        Frame-opened w p h x eh,
        (
          record h { session = some (length w.sessions) },
          length w.sessions,
          x,
          ground (
            arith,
            get_elem?-lt w.hosts p eh,
            get_elem?-set w.hosts p p (record h { session = some (length w.sessions) }),
          ),
          refl,
          get_elem?-append_last w.sessions (some x),
          refl,
          refl,
          no_overrun w.g_n_sessions w.c_session_max free,
        ),
      )

  -- From a registry that ends and keeps the sessions' invariant, `host_session_add` returns and
  -- keeps it too. It leaves the host with the new session, and the counter within the limit, or, if
  -- the limit is reached when the expired sessions and the host's old one are gone, without any.
  pub host_session_add-Keeps :
      (w : World) (p : ℕ) (h : Host) (service sid : ℕ) (xs : List ℕ)
      → SessionsOk w
      → IsPath w.hosts w.g_hosts xs
      → length xs ≤ length w.hosts
      → get_elem? w.hosts p ≡ some h
      → Keeps (host_session_add sys p service sid w) w (λ b v. Answer p service sid b v)
  unfolding host_session_add
  host_session_add-Keeps w p h service sid xs ok c le eh =
      let (u1, w1, run1, ok1, f1, t1) = timeout_all-Keeps sys w xs ok c le in
      let (g1, eg1, same1) = still_there p h f1 eh in
      let (u2, w2, run2, ok2, f2, idle) = host_session_delete-Keeps w1 p g1 ok1 eg1 in
      let (g2, eg2, same2) = still_there p g1 f2 eg1 in
      elim (Bool-cases (ltb_ℤ w2.g_n_sessions w2.c_session_max)) [
        | inl free ↦
            let (u3, w3, run3, ok3, f3, a) =
              open_session-Keeps w2 p g2 service sid ok2 eg2 (idle g2 eg2) free in
            (true, w3, ground arith, ok3, Frame-trans f1 (Frame-trans f2 f3), a)
        | inr full ↦ (false, w2, ground arith, ok2, Frame-trans f1 f2, (idle, full))
      ]
