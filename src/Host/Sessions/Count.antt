-- ===== src/Host/Sessions/Count.antt =====
-- The invariant of the sessions, and how a write to one host changes it.
use bootd.Base.{
  ℕ, zero, suc, ◌+◌, ◌≡◌, ◌≢◌, refl, none, some, List, [], ◌∷◌, get_elem?, set, arith, pos, decr,
}
use bootd.Server.State.{Host, Session, World, Listener}
use bootd.Server.Run.{done}
use bootd.Listener.Registry.{search_fd, listener_search_by_fd, listener_delete}
use bootd.Host.Sessions.{delete_listeners, host_session_delete}

abbrev pub has_session : Host → ℕ
has_session h = elim h.session [ none ↦ 0 | some s ↦ 1 ]

-- The hosts that have a session.
abbrev pub count_sessions : List Host → ℕ
count_sessions [] = 0
count_sessions (h ∷ hs) = has_session h + count_sessions hs

-- No registered listener has one of these descriptors, but for the unused slots.
abbrev pub Quiet : List ℕ → List Listener → Type 0
Quiet [] ls = Unit {0}
Quiet (fd ∷ fds) ls = (fd ≢ 0 → search_fd fd ls ≡ none) × Quiet fds ls

-- Each session that a host points to is live and no other host's, the counter counts them, and no
-- listener is registered under a session's descriptors.
pub record SessionsOk (w : World) : Type 0 where
  pub live :
      (p : ℕ) (h : Host) (s : ℕ)
      → get_elem? w.hosts p ≡ some h
      → h.session ≡ some s
      → (x : Session) × (get_elem? w.sessions s ≡ some (some x))
  pub apart :
      (p q : ℕ) (h g : Host) (s : ℕ)
      → get_elem? w.hosts p ≡ some h
      → get_elem? w.hosts q ≡ some g
      → h.session ≡ some s
      → g.session ≡ some s
      → p ≡ q
  pub counted : w.g_n_sessions ≡ pos (count_sessions w.hosts)
  pub quiet :
      (s : ℕ) (x : Session) → get_elem? w.sessions s ≡ some (some x) → Quiet x.fds w.g_listeners

pub count-set :
    (hs : List Host) (p : ℕ) (h g : Host)
    → get_elem? hs p ≡ some h
    → count_sessions (set hs p g) + has_session h ≡ count_sessions hs + has_session g
count-set [] p h g e = cc
count-set (x ∷ hs) zero h g e = let e' : x ≡ h = cc in rw e' (omega arith)
count-set (x ∷ hs) (suc p) h g e = omega (arith, count-set hs p h g e)

pub delete_listeners-Quiet :
    (fds : List ℕ) (w : World) → Quiet fds w.g_listeners → delete_listeners fds w ≡ done tt w
unfolding delete_listeners listener_search_by_fd listener_delete
delete_listeners-Quiet [] w q = refl
delete_listeners-Quiet (zero ∷ fds) w q = delete_listeners-Quiet fds w q.1
delete_listeners-Quiet (suc fd ∷ fds) w q =
    let e : search_fd (suc fd) w.g_listeners ≡ none = q.0 (omega arith) in
    ground (arith, delete_listeners-Quiet fds w q.1)

abbrev pub deleted : World → (p : ℕ) → Host → (s : ℕ) → World
deleted w p h s = record w {
  hosts = set w.hosts p (record h { session = none });
  sessions = set w.sessions s none;
  g_n_sessions = decr w.g_n_sessions;
}

pub host_session_delete-deleted :
    (w : World) (p : ℕ) (h : Host) (s : ℕ) (x : Session)
    → get_elem? w.hosts p ≡ some h
    → h.session ≡ some s
    → get_elem? w.sessions s ≡ some (some x)
    → Quiet x.fds w.g_listeners
    → host_session_delete p w ≡ done tt (deleted w p h s)
unfolding host_session_delete
host_session_delete-deleted w p h s x eh es ex q = ground (arith, delete_listeners-Quiet x.fds w q)

pub host_session_delete-none :
    (w : World) (p : ℕ) (h : Host)
    → get_elem? w.hosts p ≡ some h
    → h.session ≡ none
    → host_session_delete p w ≡ done tt w
unfolding host_session_delete
host_session_delete-none w p h eh es = ground arith
