-- ===== src/Daemon/Start/Bound.antt =====
-- The start of a service that is bound to an address.
use bootd.Base.{ℕ, suc, ◌≡◌, true, false, ◌||◌, none, List, [], ◌∷◌, ◌++◌, Bool-cases, inl, inr}
use bootd.Server.State.{SockAddr, Service, World}
use bootd.Server.Run.{done, fault}
use bootd.Server.System.{System}
use bootd.Server.Reader.{and_then-done}
use bootd.Services.Ids
use bootd.Services.Ids.{allows}
use bootd.Config.Evaluate.{write_service}
use bootd.Devices.{Device, Interface}
use bootd.Listener.Registry.{listener_new_udp, listener_add}
use bootd.Tftp.Handler.Requests.{HasSockets}
use bootd.Daemon.Network.{Network}
use bootd.Daemon.Link.{LinkLibrary}
use bootd.Daemon.Link.New.{Held}
use bootd.Daemon.Rpc.{listener_new_rpc_udp}
use bootd.Daemon.Start.{
  start_binds_udp, start_udp, start_binds_rpc_udp, start_rpc_udp, start_one, start_services,
  with_port, service_start,
}

-- The RPC library takes each socket, and the program on it.
abbrev pub Registers : Network → Type 0
Registers net = (k fd : ℕ) → (net.svc_create k fd ≡ true) × (net.svc_register k fd ≡ true)

module _ (sys : System) (interfaces : List Interface) (net : Network)
    (sockets : HasSockets sys) where
  start_udp-fault :
      (s : Service) (a : SockAddr) (rest : List SockAddr) (w : World)
      → s.bindaddr ≡ a ∷ rest
      → start_udp sys interfaces net s w ≡ fault
  unfolding start_udp start_binds_udp listener_new_udp listener_add write_service
  start_udp-fault s a rest w e =
      let (fd, e') = sockets w.calls (with_port s.defport a) none in simp (e, e')

  start_rpc_udp-fault :
      (s : Service) (a : SockAddr) (rest : List SockAddr) (w : World)
      → Registers net
      → s.bindaddr ≡ a ∷ rest
      → start_rpc_udp sys interfaces net s w ≡ fault
  unfolding start_rpc_udp start_binds_rpc_udp listener_new_rpc_udp listener_add
  start_rpc_udp-fault s a rest w reg e =
      let (fd, e1) = sockets w.calls a none in
      let (c, r) = reg (suc w.calls) fd in
      let (c', r') = reg (suc (suc w.calls)) fd in simp (e, e1, c, r')

  start_one-fault :
      (s : Service) (a : SockAddr) (rest : List SockAddr) (ds : List Device) (w : World)
      → Registers net
      → allows s.id Ids.listen_link ≡ false
      → (allows s.id Ids.listen_udp || allows s.id Ids.listen_rpc_udp) ≡ true
      → s.bindaddr ≡ a ∷ rest
      → start_one sys interfaces net s ds w ≡ fault
  unfolding start_one
  start_one-fault s a rest ds w reg link ip e = elim (Bool-cases (allows s.id Ids.listen_udp)) [
    | inl y ↦ simp (link, y, start_udp-fault s a rest w e)
    | inr n ↦
        let r : allows s.id Ids.listen_rpc_udp ≡ true = simp n at ip in
        simp (link, n, r, start_rpc_udp-fault s a rest w reg e)
  ]

  start_services-fault :
      (before after : List Service) (s : Service) (ds ds' : List Device) (w v : World)
      → start_services sys interfaces net before ds w ≡ done ds' v
      → start_one sys interfaces net s ds' v ≡ fault
      → start_services sys interfaces net (before ++ s ∷ after) ds w ≡ fault
  unfolding start_services
  start_services-fault [] after s ds ds' w v e h =
      let e1 : ds ≡ ds' = cc in
      let e2 : w ≡ v = cc in let h' : start_one sys interfaces net s ds w ≡ fault = cc in simp h'
  start_services-fault (b ∷ bs) after s ds ds' w v e h =
      let (ds1, u, e1, e2) =
        and_then-done (start_one sys interfaces net b ds w)
          (λ x. start_services sys interfaces net bs x) v ds' e in
      simp (e1, start_services-fault bs after s ds1 ds' u v e2 h)

-- Where the services before it are started, the system has sockets and the RPC library takes them,
-- a service of udp or RPC type that is bound to an address makes service_start fault: the new
-- listener has no name, and listener_add writes through it.
pub service_start-bound :
    (sys : System) (interfaces : List Interface) (net : Network) (lib : LinkLibrary)
    (before after : List Service) (s : Service) (a : SockAddr) (rest : List SockAddr)
    (ds ds' : List Device) (held : Held) (w v : World)
    → HasSockets sys
    → Registers net
    → w.l_services ≡ before ++ s ∷ after
    → start_services sys interfaces net before ds w ≡ done ds' v
    → allows s.id Ids.listen_link ≡ false
    → (allows s.id Ids.listen_udp || allows s.id Ids.listen_rpc_udp) ≡ true
    → s.bindaddr ≡ a ∷ rest
    → service_start sys interfaces net lib ds held w ≡ fault
unfolding service_start
service_start-bound sys interfaces net lib before after s a rest ds ds' held w v sockets reg e
      started link ip bound =
    let one = start_one-fault sys interfaces net sockets s a rest ds' v reg link ip bound in
    simp (e, start_services-fault sys interfaces net sockets before after s ds ds' w v started one)
