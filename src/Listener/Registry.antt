-- ===== src/Listener/Registry.antt =====
-- `listener_add`, `listener_delete`, `listener_search_by_fd` and the cleanup handlers. The list
-- `g_listeners` is kept in the order of its `next` pointers. The handlers of a listener follow from
-- its type, as each constructor sets them all.
pub mod Deleted
pub mod Added
use bootd.Base.{
  ℕ, suc, Bool, false, ◌||◌, Option, none, some, List, [], ◌∷◌, ◌++◌, ◌==◌, if◌then◌else◌,
}
use bootd.Server.State.{Listener, SockAddr, Handler, udp}
use bootd.Server.Run.{Cmd, pure, done, fault, get_world, put_world, fail_fault, ◌>>=◌, ◌>>◌}
use bootd.Server.System.{System, syscall}

unfoldable pub search_fd : ℕ → List Listener → Option Listener
search_fd fd [] = none
search_fd fd (n ∷ ns) = if n.fd == fd then some n else search_fd fd ns

unfoldable pub listener_search_by_fd : ℕ → Cmd (Option Listener)
unfolding search_fd
listener_search_by_fd fd w = done (search_fd fd w.g_listeners) w

fd_taken : ℕ → List Listener → Bool
fd_taken fd [] = false
fd_taken fd (n ∷ ns) = fd == n.fd || fd_taken fd ns

-- The loop that appends, and an empty list
insert_last : Listener → List Listener → List Listener
unfolding fd_taken
insert_last l ns = if fd_taken l.fd ns then ns else ns ++ l ∷ []

-- A listener with no name is written to through its null `name`.
unfoldable pub listener_add : Option Listener → Cmd (Unit {0})
unfolding insert_last
listener_add none = pure tt
listener_add (some l) = elim l.name [
  | none ↦ fail_fault
  | some name ↦ λ w. done tt (record w { g_listeners = insert_last l w.g_listeners })
]

unfoldable pub mem_id : ℕ → List ℕ → Bool
mem_id x [] = false
mem_id x (y ∷ ys) = x == y || mem_id x ys

-- The cleanup handlers release the listener; a second release is a fault.
unfoldable pub cleanup : Listener → Cmd (Unit {0})
unfolding mem_id
cleanup l w = if mem_id l.id w.freed then fault else done tt (record w { freed = l.id ∷ w.freed })

-- The loop of `listener_delete` behind the head; `none` if the listener is not there.
unlink : ℕ → List Listener → Option (List Listener)
unlink id [] = none
unlink id (n ∷ ns) =
    let rest = unlink id ns in
    if n.id == id then some ns else elim rest [ none ↦ none | some r ↦ some (n ∷ r) ]

delete_behind : Listener → Listener → Option (List Listener) → Cmd (Unit {0})
unfolding cleanup
delete_behind l n none = cleanup l
delete_behind l n (some rest) = do
  w ← get_world
  put_world (record w { g_listeners = n ∷ rest })
  cleanup l

delete_from : Listener → List Listener → Cmd (Unit {0})
unfolding cleanup delete_behind unlink
delete_from l [] = cleanup l
delete_from l (n ∷ ns) =
    if n.id == l.id
    then (do w ← get_world; put_world (record w { g_listeners = ns }); cleanup l; cleanup l)
    else delete_behind l n (unlink l.id ns)

-- Behind the head's branch the code falls through to the cleanup at its end.
unfoldable pub listener_delete : Option Listener → Cmd (Unit {0})
unfolding delete_from
listener_delete none = pure tt
listener_delete (some l) = do w ← get_world; delete_from l w.g_listeners

-- `d.udp.to` behind `memset` and the copy of the peer
abbrev peer_of : Option SockAddr → SockAddr
peer_of none = record { addr = 0; port = 0 }
peer_of (some to) = to

-- `listener_new_udp` with a local address: `memset`, then the fields that it sets.
unfoldable pub listener_new_udp :
    System → (from : SockAddr) → (to : Option SockAddr) → Option Handler → Cmd (Option Listener)
unfolding syscall
listener_new_udp sys from to service = do
  fd ← syscall (λ k. sys.udp_socket k from to)
  elim fd [
    | none ↦ pure none
    | some n ↦ λ w.
        done
          (some (record {
            id = w.next_id;
            fd = n;
            ip = 0;
            eth = 0 ∷ 0 ∷ 0 ∷ 0 ∷ 0 ∷ 0 ∷ [];
            name = none;
            type = udp;
            to = peer_of to;
            service = service;
          }))
          (record w { next_id = suc w.next_id })
  ]
