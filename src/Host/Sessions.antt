-- ===== src/Host/Sessions.antt =====
-- The sessions of src/host.c, and `util_host_session_timeout_all`.
pub mod Count
pub mod Keeps
pub mod Timeouts
pub mod Total
pub mod Checked
use bootd.Base.{
  ℕ, zero, suc, Bool, true, false, not, Option, none, some, List, [], ◌∷◌, ◌++◌, ◌==◌,
  if◌then◌else◌, length, pos, ◌+ℤ◌, ltb_ℤ, incr, decr,
}
use bootd.Server.State.{Host, Session}
use bootd.Server.Run.{Cmd, pure, done, hang, get_world, put_world, ◌>>=◌, ◌>>◌}
use bootd.Server.System.{System, syscall}
use bootd.Listener.Registry.{listener_search_by_fd, listener_delete}
use bootd.Host.Memory.{read_host, write_host, read_session, write_session}
use bootd.Util.Walk.{all_rounds}

-- The loop over `fd`
unfoldable pub delete_listeners : List ℕ → Cmd (Unit {0})
unfolding listener_search_by_fd listener_delete
delete_listeners [] = pure tt
delete_listeners (fd ∷ fds) =
    (if fd == 0 then pure tt else listener_search_by_fd fd >>= listener_delete)
    >> delete_listeners fds

drop_session : ℕ → Host → Option ℕ → Cmd (Unit {0})
unfolding read_session delete_listeners write_session write_host
drop_session p h none = pure tt
drop_session p h (some s) = do
  x ← read_session s
  delete_listeners x.fds
  write_session s none
  write_host p (record h { session = none })
  λ w. done tt (record w { g_n_sessions = decr w.g_n_sessions })

unfoldable pub host_session_delete : ℕ → Cmd (Unit {0})
unfolding read_host drop_session
host_session_delete p = do h ← read_host p; drop_session p h h.session

-- `memset`, and the fields that `host_session_add` sets
unfoldable pub new_session : (service sid : ℕ) → ℕ → Session
new_session service sid now = record {
  service = service;
  atime = now;
  sid = sid;
  fds = 0 ∷ 0 ∷ 0 ∷ 0 ∷ 0 ∷ 0 ∷ 0 ∷ 0 ∷ [];
  link = none;
}

-- `E_NOERROR`, `E_NOSESSION`, `E_BADSID`
pub data Check : Type 0 where
  no_error no_session bad_sid : Check

module _ (sys : System) where
  expire : ℕ → Option ℕ → Cmd (Unit {0})
  unfolding read_session syscall
  expire p none = pure tt
  expire p (some s) = do
    x ← read_session s
    now ← syscall sys.time
    w ← get_world
    if ltb_ℤ (pos x.atime +ℤ w.c_session_timeout) (pos now) then host_session_delete p else pure tt

  unfoldable pub host_session_timeout : ℕ → Cmd (Unit {0})
  unfolding read_host expire
  host_session_timeout p = do h ← read_host p; expire p h.session

  -- The loop over the hosts; `next` is read behind the call.
  unfoldable pub timeout_from : (rounds : ℕ) → Option ℕ → Cmd (Unit {0})
  unfolding read_host
  timeout_from zero p = λ w. hang
  timeout_from (suc k) none = pure tt
  timeout_from (suc k) (some p) = do host_session_timeout p; h ← read_host p; timeout_from k h.next

  unfoldable pub util_host_session_timeout_all : Cmd (Unit {0})
  util_host_session_timeout_all w = timeout_from (all_rounds w) w.g_hosts w

  -- `malloc` of a session for host `p`
  unfoldable pub open_session : ℕ → (service sid : ℕ) → Cmd (Unit {0})
  unfolding syscall new_session read_host write_host
  open_session p service sid = do
    now ← syscall sys.time
    h ← read_host p
    w ← get_world
    write_host p (record h { session = some (length w.sessions) })
    λ w'. done tt (record w' { sessions = w'.sessions ++ some (new_session service sid now) ∷ [] })

  unfoldable pub host_session_add : ℕ → (service sid : ℕ) → Cmd Bool
  host_session_add p service sid = do
    util_host_session_timeout_all
    host_session_delete p
    w ← get_world
    if ltb_ℤ w.g_n_sessions w.c_session_max
        then (do
          put_world (record w { g_n_sessions = incr w.g_n_sessions })
          open_session p service sid
          pure true)
        else pure false

  check_session : (service sid : ℕ) → Option ℕ → Cmd Check
  unfolding read_session write_session syscall
  check_session service sid none = pure no_session
  check_session service sid (some s) = do
    x ← read_session s
    if not (x.service == service)
        then pure no_session
        else if not (x.sid == sid)
        then pure bad_sid
        else (do
          now ← syscall sys.time
          write_session s (some (record x { atime = now }))
          pure no_error)

  unfoldable pub host_session_check : ℕ → (service sid : ℕ) → Cmd Check
  unfolding read_host check_session
  host_session_check p service sid = do h ← read_host p; check_session service sid h.session
