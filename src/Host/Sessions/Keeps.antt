-- ===== src/Host/Sessions/Keeps.antt =====
-- The session operations keep the invariant and come to an end.
use bootd.Base.{
  ℕ, ◌≡◌, ◌≢◌, refl, ◌∙◌, Option, none, some, length, get_elem?, set, arith, pos, get_elem?-set,
  get_elem?-lt, length-set, inl, inr, Option-cases,
}
use bootd.Server.State.{Host, Session, World}
use bootd.Server.Run.{Run, done}
use bootd.Host.Sessions.{host_session_delete}
use bootd.Host.Sessions.Count.{
  SessionsOk, count_sessions, count-set, Quiet, deleted, host_session_delete-deleted,
  host_session_delete-none,
}

module _ {w : World} (ok : SessionsOk w) (p : ℕ) (h : Host) (s : ℕ)
    (eh : get_elem? w.hosts p ≡ some h) (es : h.session ≡ some s) where
  abbrev cleared : Host
  cleared = record h { session = none }

  -- A host that still has a session is another one, and is as it was.
  kept :
      (q : ℕ) (g : Host) (t : ℕ)
      → get_elem? (set w.hosts p cleared) q ≡ some g
      → g.session ≡ some t
      → (get_elem? w.hosts q ≡ some g) × (p ≢ q)
  kept q g t eg et = ground (arith, get_elem?-lt w.hosts p eh, get_elem?-set w.hosts p q cleared)

  deleted_live :
      (q : ℕ) (g : Host) (t : ℕ)
      → get_elem? (deleted w p h s).hosts q ≡ some g
      → g.session ≡ some t
      → (x : Session) × (get_elem? (deleted w p h s).sessions t ≡ some (some x))
  deleted_live q g t eg et =
      let old = ok.live q g t (kept q g t eg et).0 et in
      (
        old.0,
        ground (
          arith,
          kept q g t eg et,
          get_elem?-lt w.sessions s (ok.live p h s eh es).1,
          get_elem?-set {A = Option Session} w.sessions s t none,
          old.1,
          ok.apart q p g h t,
        ),
      )

  deleted_apart :
      (q r : ℕ) (g k : Host) (t : ℕ)
      → get_elem? (deleted w p h s).hosts q ≡ some g
      → get_elem? (deleted w p h s).hosts r ≡ some k
      → g.session ≡ some t
      → k.session ≡ some t
      → q ≡ r
  deleted_apart q r g k t eg ek etg etk = ground (
    arith,
    get_elem?-lt w.hosts p eh,
    get_elem?-set w.hosts p q cleared,
    get_elem?-set w.hosts p r cleared,
    ok.apart q r g k t,
  )

  deleted_counted : (deleted w p h s).g_n_sessions ≡ pos (count_sessions (deleted w p h s).hosts)
  deleted_counted = ground (arith, count-set w.hosts p h cleared eh, ok.counted)

  deleted-Quiet :
      (t : ℕ) (x : Session)
      → get_elem? (deleted w p h s).sessions t ≡ some (some x)
      → Quiet x.fds w.g_listeners
  deleted-Quiet t x e = ok.quiet t x (
      ground (
        arith,
        get_elem?-lt w.sessions s (ok.live p h s eh es).1,
        get_elem?-set {A = Option Session} w.sessions s t none,
      ))

  pub deleted-SessionsOk : SessionsOk (deleted w p h s)
  deleted-SessionsOk = record {
    live = deleted_live;
    apart = deleted_apart;
    counted = deleted_counted;
    quiet = deleted-Quiet;
  }

-- A host but for its session.
abbrev pub forget : Option Host → Option Host
forget none = none
forget (some h) = some (record h { session = none })

-- What the session operations leave alone: the hosts but for their sessions, the lists, the limits
-- and what was sent.
pub record Frame (w v : World) : Type 0 where
  pub hosts : (q : ℕ) → forget (get_elem? v.hosts q) ≡ forget (get_elem? w.hosts q)
  pub roots : v.g_hosts ≡ w.g_hosts
  pub sizes : length v.hosts ≡ length w.hosts
  pub listeners : v.g_listeners ≡ w.g_listeners
  pub freed : v.freed ≡ w.freed
  pub maximum : v.c_session_max ≡ w.c_session_max
  pub sent : v.sent ≡ w.sent

pub Frame-refl : (w : World) → Frame w w
Frame-refl w = record {
  hosts = λ q. refl;
  roots = refl;
  sizes = refl;
  listeners = refl;
  freed = refl;
  maximum = refl;
  sent = refl;
}

pub Frame-trans : {w v u : World} → Frame w v → Frame v u → Frame w u
Frame-trans f g = record {
  hosts = λ q. g.hosts q ∙ f.hosts q;
  roots = g.roots ∙ f.roots;
  sizes = g.sizes ∙ f.sizes;
  listeners = g.listeners ∙ f.listeners;
  freed = g.freed ∙ f.freed;
  maximum = g.maximum ∙ f.maximum;
  sent = g.sent ∙ f.sent;
}

-- The call returns, and keeps the invariant and the frame.
abbrev pub Keeps {ℓ} : {A : Type ℓ} → Run A → World → (A → World → Type 0) → Type ℓ
Keeps {A} r w P = (a : A) × (v : World) × (r ≡ done a v) × SessionsOk v × Frame w v × P a v

Frame-deleted :
    (w : World) (p s : ℕ) (h : Host) → get_elem? w.hosts p ≡ some h → Frame w (deleted w p h s)
Frame-deleted w p s h eh = record {
  hosts = λ q.
      ground
        (arith, get_elem?-lt w.hosts p eh, get_elem?-set w.hosts p q (record h { session = none }));
  roots = refl;
  sizes = length-set w.hosts p (record h { session = none });
  listeners = refl;
  freed = refl;
  maximum = refl;
  sent = refl;
}

-- The host has no session.
abbrev pub Idle : ℕ → World → Type 0
Idle p v = (h : Host) → get_elem? v.hosts p ≡ some h → h.session ≡ none

-- Where the sessions' invariant holds, `host_session_delete` of a host returns, keeps it, and
-- leaves the host without a session.
pub host_session_delete-Keeps :
    (w : World) (p : ℕ) (h : Host)
    → SessionsOk w
    → get_elem? w.hosts p ≡ some h
    → Keeps (host_session_delete p w) w (λ _ v. Idle p v)
host_session_delete-Keeps w p h ok eh = elim (Option-cases h.session) [
  | inl e ↦ (tt, w, host_session_delete-none w p h eh e, ok, Frame-refl w, λ g eg. ground arith)
  | inr (s, es) ↦
      let (x, ex) = ok.live p h s eh es in
      (
        tt,
        deleted w p h s,
        host_session_delete-deleted w p h s x eh es ex (ok.quiet s x ex),
        deleted-SessionsOk ok p h s eh es,
        Frame-deleted w p s h eh,
        λ g eg. ground (
          arith,
          get_elem?-lt w.hosts p eh,
          get_elem?-set w.hosts p p (record h { session = none }),
        ),
      )
]
