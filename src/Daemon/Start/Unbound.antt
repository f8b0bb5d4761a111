-- ===== src/Daemon/Start/Unbound.antt =====
-- `service_start` where no service is bound to an address.
use bootd.Base.{
  ℕ, ◌≡◌, refl, ◌∙◌, inl, inr, Option, none, some, List, [], ◌∷◌, Text, Bool-cases, get_elem?,
}
use bootd.Server.State.{Service, World}
use bootd.Server.Run.{done}
use bootd.Server.System.{System}
use bootd.Server.Reader.{
  IsReader-need, IsReader, IsReader-pure, IsReader-fault, IsReader-bind, and_then-done,
}
use bootd.Services.Ids
use bootd.Services.Ids.{allows}
use bootd.Config.Evaluate.{write_service, replace_service}
use bootd.Devices.{Device, Interface, device_search_by_name}
use bootd.Daemon.Network.{Network}
use bootd.Daemon.Link.{LinkLibrary}
use bootd.Daemon.Link.New.{Held}
use bootd.Daemon.Start.Links.{LinksOk, start_links-LinksOk}
use bootd.Daemon.Start.{
  filter_at, filter_device, filter_devices, names_read, with_ports, start_one, start_udp,
  start_binds_udp, start_rpc_udp, start_binds_rpc_udp, start_services, service_start,
}

-- What listeners depend on is as it was.
abbrev SameListeners : World → World → Type 0
SameListeners w v = (v.g_listeners ≡ w.g_listeners) × (v.freed ≡ w.freed) × (v.next_id ≡ w.next_id)

LinksOk-same : (w v : World) → SameListeners w v → LinksOk w → LinksOk v
LinksOk-same w v e ok = (
  record {
    distinct = rw e.0 ok.0.distinct;
    alive = rw (e.0, e.1) ok.0.alive;
    below = rw (e.0, e.2) ok.0.below;
    freed_below = rw (e.1, e.2) ok.0.freed_below;
  },
  rw e.0 ok.1,
)

-- No service is bound to an address.
abbrev pub AllUnbound : List Service → Type 0
AllUnbound [] = Unit {0}
AllUnbound (s ∷ ss) = (s.bindaddr ≡ []) × AllUnbound ss

module _ (sys : System) (interfaces : List Interface) where
  filter_at-IsReader :
      (filter : Text) (ds : List Device) (i : ℕ) (o : Option Device)
      → IsReader (filter_at sys filter ds i o)
  unfolding filter_at
  filter_at-IsReader filter ds i none = IsReader-fault
  filter_at-IsReader filter ds i (some d) = IsReader-pure _

  filter_device-IsReader :
      (filter : Text) (x : Option ℕ × List Device) → IsReader (filter_device sys filter x)
  unfolding filter_device
  filter_device-IsReader filter (none, ds) = record { keeps = λ w v b e. cc }
  filter_device-IsReader filter (some i, ds) = filter_at-IsReader filter ds i (get_elem? ds i)

  filter_devices-IsReader :
      (filter : Text) (names : List Text) (ds : List Device)
      → IsReader (filter_devices sys interfaces filter names ds)
  unfolding filter_devices
  filter_devices-IsReader filter [] ds = IsReader-pure ds
  filter_devices-IsReader filter (name ∷ names) ds =
      IsReader-bind _ _ (IsReader-need (device_search_by_name interfaces name ds)) (λ found.
        IsReader-bind _ _ (filter_device-IsReader filter found)
          (λ ds'. filter_devices-IsReader filter names ds'))

  module _ (net : Network) where
    start_udp-unbound :
        (s : Service) (w : World)
        → s.bindaddr ≡ []
        → (ls : List Service) × (start_udp sys interfaces net s w
            ≡ done tt (record w { l_services = ls }))
    unfolding start_udp start_binds_udp write_service
    start_udp-unbound s w e = (
      replace_service (record s { bindaddr = with_ports s.defport s.bindaddr }) w.l_services,
      simp e,
    )

    start_rpc_udp-unbound :
        (s : Service) (w : World)
        → s.bindaddr ≡ []
        → start_rpc_udp sys interfaces net s w ≡ done tt w
    unfolding start_rpc_udp start_binds_rpc_udp
    start_rpc_udp-unbound s w e = simp e

    start_one-same :
        (s : Service) (ds ds' : List Device) (w v : World)
        → s.bindaddr ≡ []
        → start_one sys interfaces net s ds w ≡ done ds' v
        → SameListeners w v
    unfolding start_one
    start_one-same s ds ds' w v none_bound e = elim (Bool-cases (allows s.id Ids.listen_link)) [
      | inl y ↦
          let e1 = simp y at e in
          let same : v ≡ w =
            (filter_devices-IsReader s.filter (names_read s) ds).keeps w v ds' e1 in
          rw same (refl, refl, refl)
      | inr n ↦ elim (Bool-cases (allows s.id Ids.listen_udp)) [
        | inl y ↦
            let (ls, run) = start_udp-unbound s w none_bound in
            let e1 = simp (n, y, run) at e in
            let same : v ≡ record w { l_services = ls } = cc in rw same (refl, refl, refl)
        | inr n' ↦ elim (Bool-cases (allows s.id Ids.listen_rpc_udp)) [
          | inl y ↦
              let e1 = simp (n, n', y, start_rpc_udp-unbound s w none_bound) at e in
              let same : v ≡ w = cc in rw same (refl, refl, refl)
          | inr n'' ↦
              let e1 = simp (n, n', n'') at e in let same : v ≡ w = cc in rw same (refl, refl, refl)
        ]
      ]
    ]

    start_services-same :
        (ss : List Service) (ds ds' : List Device) (w v : World)
        → AllUnbound ss
        → start_services sys interfaces net ss ds w ≡ done ds' v
        → SameListeners w v
    unfolding start_services
    start_services-same [] ds ds' w v u e = let same : v ≡ w = cc in rw same (refl, refl, refl)
    start_services-same (s ∷ ss) ds ds' w v u e =
        let (ds1, x, e1, e2) =
          and_then-done (start_one sys interfaces net s ds w)
            (λ y. start_services sys interfaces net ss y) v ds' e in
        let a = start_one-same s ds ds1 w x u.0 e1 in
        let b = start_services-same ss ds1 ds' x v u.1 e2 in (b.0 ∙ a.0, b.1 ∙ a.1, b.2 ∙ a.2)

-- From distinct link listeners, none of them released, where no service is bound to an address and
-- the first loop goes through the services, service_start returns, whatever libnet and pcap
-- answer, and all listeners are again distinct link listeners and not released.
pub service_start-LinksOk :
    (sys : System) (interfaces : List Interface) (net : Network) (lib : LinkLibrary)
    (ds ds' : List Device) (held : Held) (w v : World)
    → LinksOk w
    → AllUnbound w.l_services
    → start_services sys interfaces net w.l_services ds w ≡ done ds' v
    → (held' : Held) × (u : World) × (service_start sys interfaces net lib ds held w
        ≡ done (ds', held') u)
      × LinksOk u
unfolding service_start
service_start-LinksOk sys interfaces net lib ds ds' held w v ok unbound started =
    let same = start_services-same sys interfaces net w.l_services ds ds' w v unbound started in
    let (held', u, run, ok') = start_links-LinksOk lib ds' held v (LinksOk-same w v same ok) in
    (held', u, simp (started, run), ok')
