-- ===== src/Daemon/Start/Links.antt =====
-- The start of link listeners.
use bootd.Base.{
  ℕ, suc, ◌≡◌, refl, inl, inr, Option, none, some, List, [], ◌∷◌, ◌++◌, Text, Bool-cases,
}
use bootd.Server.State.{Listener, World, link}
use bootd.Server.Run.{done}
use bootd.Devices.{Device}
use bootd.Listener.Registry.{listener_add}
use bootd.Listener.Registry.Added.{ListenersOk, listener_add-ListenersOk, ListenersOk-none}
use bootd.Daemon.Link.{LinkLibrary}
use bootd.Daemon.Link.New.{Held}
use bootd.Daemon.Link.Held.{LinkOutcome, listener_new_link-outcome}
use bootd.Daemon.Start.{has_or, start_link, start_filtered, start_links}

abbrev pub AllLink : List Listener → Type 0
AllLink [] = Unit {0}
AllLink (l ∷ ls) = (l.type ≡ link) × AllLink ls

AllLink-append :
    (ls : List Listener) (l : Listener) → AllLink ls → l.type ≡ link → AllLink (ls ++ l ∷ [])
AllLink-append [] l a t = (t, tt)
AllLink-append (n ∷ ns) l a t = (a.0, AllLink-append ns l a.1 t)

-- A list of distinct link listeners, none of them released
abbrev pub LinksOk : World → Type 0
LinksOk w = ListenersOk w × AllLink w.g_listeners

module _ (lib : LinkLibrary) where
  added-LinksOk :
      (o : Option Listener) (before after : Held) (w : World) (k : ℕ)
      → LinkOutcome w.next_id before o after
      → LinksOk w
      → (v : World) × (listener_add o (record w { calls = k; next_id = suc w.next_id }) ≡ done tt v)
        × LinksOk v
  unfolding listener_add
  added-LinksOk none before after w k out ok =
      (record w { calls = k; next_id = suc w.next_id }, refl, (ListenersOk-none w k ok.0, ok.1))
  added-LinksOk (some l) before after w k (h, g, n, e, t, en, ei) ok =
      let (ls, run, ok', which) = listener_add-ListenersOk l n w k en ei ok.0 in
      let links : AllLink ls = elim which [
        | inl same ↦ rw same ok.1
        | inr more ↦ rw more (AllLink-append w.g_listeners l ok.1 t)
      ] in
      (record w { calls = k; next_id = suc w.next_id; g_listeners = ls }, run, (ok', links))

  start_link-LinksOk :
      (d : Device) (held : Held) (w : World)
      → LinksOk w
      → (held' : Held) × (v : World) × (start_link lib d held w ≡ done held' v) × LinksOk v
  unfolding start_link
  start_link-LinksOk d held w ok = elim (Bool-cases (has_or d.filter)) [
    | inr n ↦ (held, w, simp n, ok)
    | inl y ↦
        let (o, after, k, run, out) = listener_new_link-outcome lib d.name (some d.filter) held w in
        let (v, run', ok') = added-LinksOk o held after w k out ok in
        (after, v, simp (y, run, run'), ok')
  ]

  start_filtered-LinksOk :
      (d : Device) (filter : Text) (held : Held) (w : World)
      → LinksOk w
      → (held' : Held) × (v : World) × (start_filtered lib d filter held w ≡ done held' v)
        × LinksOk v
  unfolding start_filtered
  start_filtered-LinksOk d [] held w ok = (held, w, refl, ok)
  start_filtered-LinksOk d (c ∷ cs) held w ok = start_link-LinksOk d held w ok

  pub start_links-LinksOk :
      (ds : List Device) (held : Held) (w : World)
      → LinksOk w
      → (held' : Held) × (v : World) × (start_links lib ds held w ≡ done held' v) × LinksOk v
  unfolding start_links
  start_links-LinksOk [] held w ok = (held, w, refl, ok)
  start_links-LinksOk (d ∷ ds) held w ok =
      let (held1, u, run, ok1) = start_filtered-LinksOk d d.filter held w ok in
      let (held2, v, run', ok2) = start_links-LinksOk ds held1 u ok1 in
      (held2, v, simp (run, run'), ok2)
