-- ===== src/Daemon/Select.antt =====
-- `listener_select` of src/listener.c.
pub mod Served
pub mod Frames
use bootd.Base.{
  ℕ, zero, suc, ◌+◌, Bool, false, ◌||◌, Option, none, some, List, [], ◌∷◌, ◌==◌, leb, if◌then◌else◌,
}
use bootd.Server.State.{Listener}
use bootd.Server.Run.{Cmd, pure, done, fault, hang, fail_fault, get_world, ◌>>=◌, ◌>>◌}
use bootd.Server.System.{System, syscall}
use bootd.Listener.Registry.{mem_id}
use bootd.Daemon.Network.{Network}
use bootd.Daemon.Receive.{receive}

-- `FD_SETSIZE` of glibc
abbrev pub fd_setsize : ℕ
fd_setsize = 1024

-- The first loop: the descriptors in `fds`; `none` where FD_SET writes beyond it.
unfoldable pub fd_set_of : List Listener → Option (List ℕ)
fd_set_of [] = some []
fd_set_of (n ∷ ns) =
    let rest = fd_set_of ns in
    if leb fd_setsize n.fd then none else elim rest [ none ↦ none | some fds ↦ some (n.fd ∷ fds) ]

-- `FD_ISSET`
unfoldable pub fd_isset : ℕ → List ℕ → Bool
fd_isset fd [] = false
fd_isset fd (x ∷ xs) = fd == x || fd_isset fd xs

abbrev pub first_of : List Listener → Option Listener
first_of [] = none
first_of (n ∷ ns) = some n

-- `l->next`, by the address of the struct
unfoldable pub next_of : (id : ℕ) → List Listener → Option Listener
next_of id [] = none
next_of id (n ∷ ns) = if n.id == id then first_of ns else next_of id ns

-- The read of `l->next`, a fault where the struct is released
unfoldable pub next_pointer : Listener → Cmd (Option Listener)
unfolding next_of
next_pointer l w = if mem_id l.id w.freed then fault else done (next_of l.id w.g_listeners) w

module _ (sys : System) (net : Network) (arp_hdr : ℕ) where
  -- A round of the second loop
  unfoldable pub serve : (ready : List ℕ) → Listener → Cmd (Unit {0})
  serve ready l = if fd_isset l.fd ready then receive sys net arp_hdr l else pure tt

  -- The second loop. Handlers may change the list, so its rounds are counted.
  unfoldable pub select_loop : (rounds : ℕ) → (ready : List ℕ) → Option Listener → Cmd (Unit {0})
  select_loop zero ready l = λ w. hang
  select_loop (suc n) ready none = pure tt
  select_loop (suc n) ready (some l) = do
    serve ready l
    next ← next_pointer l
    select_loop n ready next

  unfoldable pub select_ready : (rounds : ℕ) → Option (List ℕ) → Cmd (Unit {0})
  select_ready rounds none = pure tt
  select_ready rounds (some ready) = do
    w ← get_world
    select_loop rounds ready (first_of w.g_listeners)

  unfoldable pub select_of : (rounds : ℕ) → Option (List ℕ) → Cmd (Unit {0})
  unfolding syscall select_ready
  select_of rounds none = fail_fault
  select_of rounds (some fds) = do
    ready ← syscall (λ k. net.select k fds)
    select_ready rounds ready

  unfoldable pub listener_select : (rounds : ℕ) → Cmd (Unit {0})
  unfolding select_of
  listener_select rounds = do w ← get_world; select_of rounds (fd_set_of w.g_listeners)
