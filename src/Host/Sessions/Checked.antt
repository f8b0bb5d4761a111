-- ===== src/Host/Sessions/Checked.antt =====
-- `host_session_check`.
use bootd.Base.{
  ℕ, suc, ◌≡◌, ◌≢◌, refl, none, some, ◌==◌, get_elem?, set, arith, get_elem?-set, get_elem?-lt, inl,
  inr, Bool-cases, Option-cases, ◌⊎◌,
}
use mathlib.Core.Path.{subst}
use bootd.Server.State.{Host, Session, World}
use bootd.Server.System.{System}
use bootd.Host.Sessions.{host_session_check, Check, no_error, no_session, bad_sid}
use bootd.Host.Sessions.Count.{SessionsOk, Quiet}
use bootd.Host.Sessions.Keeps.{Frame, Frame-refl, Keeps}

-- The world in which session `s` was used now.
abbrev pub touched : System → World → (s : ℕ) → Session → World
touched sys w s x = record w {
  calls = suc w.calls;
  sessions = set w.sessions s (some (record x { atime = sys.time w.calls }));
}

module _ (sys : System) (w : World) (ok : SessionsOk w) (s : ℕ) (x : Session)
    (ex : get_elem? w.sessions s ≡ some (some x)) where
  abbrev used : Session
  used = record x { atime = sys.time w.calls }

  touched_live :
      (t : ℕ) (y : Session)
      → get_elem? w.sessions t ≡ some (some y)
      → (z : Session) × (get_elem? (touched sys w s x).sessions t ≡ some (some z))
  touched_live t y ey = elim (Bool-cases (s == t)) [
    | inl same ↦ (
      used,
      ground (arith, get_elem?-lt w.sessions s ex, get_elem?-set w.sessions s t (some used)),
    )
    | inr other ↦
        (y, ground (arith, get_elem?-lt w.sessions s ex, get_elem?-set w.sessions s t (some used)))
  ]

  touched-Quiet :
      (t : ℕ) (y : Session)
      → get_elem? (touched sys w s x).sessions t ≡ some (some y)
      → Quiet y.fds w.g_listeners
  touched-Quiet t y ey = elim (Bool-cases (s == t)) [
    | inl same ↦
        let fds : x.fds ≡ y.fds =
          ground (arith, get_elem?-lt w.sessions s ex, get_elem?-set w.sessions s t (some used)) in
        subst (λ l. Quiet l w.g_listeners) fds (ok.quiet s x ex)
    | inr other ↦
        ok.quiet t y
          (ground (arith, get_elem?-lt w.sessions s ex, get_elem?-set w.sessions s t (some used)))
  ]

  touched-SessionsOk : SessionsOk (touched sys w s x)
  touched-SessionsOk = record {
    live = λ q g t eg et. let (y, ey) = ok.live q g t eg et in touched_live t y ey;
    apart = ok.apart;
    counted = ok.counted;
    quiet = touched-Quiet;
  }

  Frame-touched : Frame w (touched sys w s x)
  Frame-touched = record {
    hosts = λ q. refl;
    roots = refl;
    sizes = refl;
    listeners = refl;
    freed = refl;
    maximum = refl;
    sent = refl;
  }

-- What each verdict says of the host's session.
abbrev pub Verdict : System → World → Host → (service sid : ℕ) → Check → World → Type 0
Verdict sys w h service sid no_error v =
    (s : ℕ) × (x : Session) × (h.session ≡ some s)
    × (get_elem? w.sessions s ≡ some (some x))
    × (x.service ≡ service)
    × (x.sid ≡ sid)
    × (v ≡ touched sys w s x)
Verdict sys w h service sid no_session v =
    (v ≡ w)
    × ((h.session ≡ none)
        ⊎ ((s : ℕ) × (x : Session) × (h.session ≡ some s)
            × (get_elem? w.sessions s ≡ some (some x))
            × (x.service ≢ service)))
Verdict sys w h service sid bad_sid v =
    (v ≡ w)
    × ((s : ℕ) × (x : Session) × (h.session ≡ some s)
        × (get_elem? w.sessions s ≡ some (some x))
        × (x.service ≡ service)
        × (x.sid ≢ sid))

-- Where the sessions' invariant holds, the check of a host returns and keeps it. It passes exactly
-- a session of that service and id, which it marks as used now; otherwise nothing changes, and the
-- verdict says what is missing.
pub host_session_check-Keeps :
    (sys : System) (w : World) (p : ℕ) (h : Host) (service sid : ℕ)
    → SessionsOk w
    → get_elem? w.hosts p ≡ some h
    → Keeps (host_session_check sys p service sid w) w (λ c v. Verdict sys w h service sid c v)
unfolding host_session_check
host_session_check-Keeps sys w p h service sid ok eh = elim (Option-cases h.session) [
  | inl e ↦ (no_session, w, ground arith, ok, Frame-refl w, (refl, inl e))
  | inr (s, es) ↦
      let (x, ex) = ok.live p h s eh es in
      elim (Bool-cases (x.service == service)) [
        | inr other ↦ (
          no_session,
          w,
          ground arith,
          ok,
          Frame-refl w,
          (refl, inr (s, x, es, ex, ground arith)),
        )
        | inl same ↦ elim (Bool-cases (x.sid == sid)) [
          | inr bad ↦ (
            bad_sid,
            w,
            ground arith,
            ok,
            Frame-refl w,
            (refl, (s, x, es, ex, ground arith, ground arith)),
          )
          | inl good ↦ (
            no_error,
            touched sys w s x,
            ground arith,
            touched-SessionsOk sys w ok s x ex,
            Frame-touched sys w ok s x ex,
            (s, x, es, ex, ground arith, ground arith, refl),
          )
        ]
      ]
]
