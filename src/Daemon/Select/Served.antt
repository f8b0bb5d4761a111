-- ===== src/Daemon/Select/Served.antt =====
-- `listener_select` against a walk over a list that stays as it is.
use bootd.Base.{
  ap, ◌∙◌, Bool, true, false, ◌==◌, if◌then◌else◌, Bool-cases, inl, inr, ℕ, zero, suc, ◌<◌, ◌≡◌,
  refl, some, List, [], ◌∷◌, length, arith,
}
use bootd.Server.State.{Listener, World}
use bootd.Server.Run.{Cmd, pure, done, ◌>>◌}
use bootd.Server.System.{System}
use bootd.Listener.Registry.Deleted.{Absent, Distinct}
use bootd.Listener.Registry.Added.{Alive}
use bootd.Daemon.Network.{Network}
use bootd.Daemon.Receive.{receive}
use bootd.Listener.Registry.{mem_id}
use bootd.Daemon.Select.{
  fd_set_of, fd_isset, first_of, next_of, next_pointer, serve, select_loop, listener_select,
}

-- The `next` pointers of `all` lead through the listeners of a list, in their order.
abbrev pub Follows : List Listener → List Listener → Type 0
Follows all [] = Unit {0}
Follows all (l ∷ ls) = (next_of l.id all ≡ first_of ls) × Follows all ls

Follows-cons :
    (n : Listener) (all ls : List Listener) → Absent n.id ls → Follows all ls → Follows (n ∷ all) ls
unfolding next_of
Follows-cons n all [] a f = tt
Follows-cons n all (l ∷ ls) a f = (ground arith, Follows-cons n all ls a.1 f.1)

pub Follows-self : (ls : List Listener) → Distinct ls → Follows ls ls
unfolding next_of
Follows-self [] d = tt
Follows-self (n ∷ ns) d = (ground arith, Follows-cons n ns ns d.0 (Follows-self ns d.1))

-- Whether a descriptor is one of those that select reports
abbrev pub among : ℕ → List ℕ → Bool
among fd [] = false
among fd (x ∷ xs) = if x == fd then true else among fd xs

fd_isset-among : (fd : ℕ) (ready : List ℕ) → fd_isset fd ready ≡ among fd ready
unfolding fd_isset
fd_isset-among fd [] = refl
fd_isset-among fd (x ∷ xs) = let ih = fd_isset-among fd xs in ground arith

-- The listeners that select reports, in the order of the list
abbrev pub reported : (ready : List ℕ) → List Listener → List Listener
reported ready [] = []
reported ready (l ∷ ls) =
    let rest = reported ready ls in if among l.fd ready then l ∷ rest else rest

module _ (sys : System) (net : Network) (arp_hdr : ℕ) where
  -- A call of `receive` for each of these listeners, and nothing else
  unfoldable pub receive_each : List Listener → Cmd (Unit {0})
  receive_each [] = pure tt
  receive_each (l ∷ ls) = do receive sys net arp_hdr l; receive_each ls

  module _ (ready : List ℕ) where
    serve-reported :
        (l : Listener) (w v : World)
        → among l.fd ready ≡ true
        → receive sys net arp_hdr l w ≡ done tt v
        → serve sys net arp_hdr ready l w ≡ done tt v
    unfolding serve
    serve-reported l w v y e = simp (fd_isset-among l.fd ready, y) e

    serve-passed :
        (l : Listener) (w : World)
        → among l.fd ready ≡ false
        → serve sys net arp_hdr ready l w ≡ done tt w
    unfolding serve
    serve-passed l w n = simp (fd_isset-among l.fd ready, n)

    -- Where `P` holds, the receive of each of these listeners that select reports returns, and `P`
    -- holds again.
    abbrev pub Steady : (World → Type 0) → List Listener → Type 0
    Steady P [] = Unit {0}
    Steady P (l ∷ ls) =
        (among l.fd ready ≡ true
          → (w : World) → P w
          → (v : World) × (receive sys net arp_hdr l w ≡ done tt v) × P v)
        × Steady P ls

    module _ (P : World → Type 0) (all : List Listener)
        (kept : (w : World) → P w → (w.g_listeners ≡ all) × Alive all w.freed) where
      next-first :
          (l : Listener) (ls : List Listener) (w : World)
          → next_of l.id all ≡ first_of ls
          → mem_id l.id w.freed ≡ false
          → P w
          → next_pointer l w ≡ done (first_of ls) w
      unfolding next_pointer
      next-first l ls w f a p = simp (a, (kept w p).0, f)

      select_loop-receive_each :
          (n : ℕ) (ls : List Listener) (w : World)
          → length ls < n
          → Follows all ls
          → ((v : World) → P v → Alive ls v.freed)
          → Steady P ls
          → P w
          → (v : World) × (select_loop sys net arp_hdr n ready (first_of ls) w ≡ done tt v)
            × (receive_each (reported ready ls) w ≡ done tt v)
            × P v
      unfolding select_loop receive_each
      select_loop-receive_each zero ls w lt f alive s p = elim lt [ ]
      select_loop-receive_each (suc n) [] w lt f alive s p = (w, refl, refl, p)
      select_loop-receive_each (suc n) (l ∷ ls) w lt f alive s p =
          elim (Bool-cases (among l.fd ready)) [
            | inl y ↦
                let (u, e, q) = s.0 y w p in
                let (v, e1, e2, r) =
                  select_loop-receive_each n ls u (omega arith) f.1 (λ x h. (alive x h).1) s.1 q in
                let next = next-first l ls u f.0 (alive u q).0 q in
                (v, simp (serve-reported l w u y e, next, e1), simp (y, e, e2), r)
            | inr passed ↦
                let (v, e1, e2, r) =
                  select_loop-receive_each n ls w (omega arith) f.1 (λ x h. (alive x h).1) s.1 p in
                let next = next-first l ls w f.0 (alive w p).0 p in
                (v, simp (serve-passed l w passed, next, e1), simp (passed, e2), r)
          ]

-- The world behind the call of select
abbrev pub selected : World → World
selected w = record w { calls = suc w.calls }

select_loop-of_select :
    (sys : System) (net : Network) (arp_hdr rounds : ℕ) (ready fds : List ℕ) (w : World)
    → fd_set_of w.g_listeners ≡ some fds
    → net.select w.calls fds ≡ some ready
    → listener_select sys net arp_hdr rounds w
      ≡ select_loop sys net arp_hdr rounds ready (first_of w.g_listeners) (selected w)
unfolding listener_select
select_loop-of_select sys net arp_hdr rounds ready fds w set sel = simp (set, sel)

-- The same as below, with a name for the list
pub listener_select-on :
    (sys : System) (net : Network) (arp_hdr : ℕ) (P : World → Type 0) (rounds : ℕ)
    (ready fds : List ℕ) (w : World) (ls : List Listener)
    → w.g_listeners ≡ ls
    → ((v : World) → P v → (v.g_listeners ≡ ls) × Alive ls v.freed)
    → Distinct ls
    → Steady sys net arp_hdr ready P ls
    → P (selected w)
    → length ls < rounds
    → fd_set_of ls ≡ some fds
    → net.select w.calls fds ≡ some ready
    → (v : World) × (listener_select sys net arp_hdr rounds w ≡ done tt v)
      × (receive_each sys net arp_hdr (reported ready ls) (selected w) ≡ done tt v)
      × P v
listener_select-on sys net arp_hdr P rounds ready fds w ls here kept d s p lt set sel =
    let (v, e1, e2, q) =
      select_loop-receive_each sys net arp_hdr ready P ls kept rounds ls (selected w) lt
        (Follows-self ls d) (λ x h. (kept x h).1) s p in
    let at : fd_set_of w.g_listeners ≡ some fds = ap fd_set_of here ∙ set in
    let run = select_loop-of_select sys net arp_hdr rounds ready fds w at sel in
    let loop = select_loop sys net arp_hdr rounds ready in
    (v, run ∙ ap (λ x. loop (first_of x) (selected w)) here ∙ e1, e2, q)

-- Where the list is one of distinct listeners with descriptors below FD_SETSIZE, select returns,
-- and an invariant `P` holds in which the list stays and no listener of it is released, and which
-- receive of each listener that select reports keeps and returns from: listener_select returns,
-- with as many rounds as there are listeners and one, and has called receive once for each
-- listener that select reports, in the order of the list, and done nothing else.
pub listener_select-receive_each :
    (sys : System) (net : Network) (arp_hdr : ℕ) (P : World → Type 0) (rounds : ℕ)
    (ready fds : List ℕ) (w : World)
    → ((v : World) → P v → (v.g_listeners ≡ w.g_listeners) × Alive w.g_listeners v.freed)
    → Distinct w.g_listeners
    → Steady sys net arp_hdr ready P w.g_listeners
    → P (selected w)
    → length w.g_listeners < rounds
    → fd_set_of w.g_listeners ≡ some fds
    → net.select w.calls fds ≡ some ready
    → (v : World) × (listener_select sys net arp_hdr rounds w ≡ done tt v)
      × (receive_each sys net arp_hdr (reported ready w.g_listeners) (selected w) ≡ done tt v)
      × P v
listener_select-receive_each sys net arp_hdr P rounds ready fds w kept d s p lt set sel =
    listener_select-on sys net arp_hdr P rounds ready fds w w.g_listeners refl kept d s p lt set sel
