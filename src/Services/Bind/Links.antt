-- ===== src/Services/Bind/Links.antt =====
-- What `service_link_add` looks up.
use bootd.Base.{
  Option-cases, inl, inr, ◌≡◌, refl, sym, Bool, true, false, ltb, length, if◌then◌else◌, [], ◌∷◌,
  ◌++◌, ◌||◌, Option, none, some, List, Text, codes, strcmp_eq, arith,
}
use bootd.Server.State.{EtherAddr, World, Service}
use bootd.Server.Run.{Run, done, fault}
use bootd.Server.System.{System}
use bootd.Util.Resolve.{util_name2ether}
use bootd.Devices.{Device, Interface, devices_ready, find_name, device_search_by_name}
use bootd.Services.Bind.{
  Bound, device_at, link_device_add, link_device, link_by_eth, link_named, service_link_add,
}

module _ (sys : System) (interfaces : List Interface) where
  name2ether-read :
      (name : Text) (eth : EtherAddr) (w : World)
      → sys.ether_aton name ≡ some eth
      → util_name2ether sys name w ≡ done (some eth) w
  unfolding util_name2ether
  name2ether-read name eth w e = ground arith

  link_by_eth-fails :
      (s : Service) (device : Text) (ds : List Device) (w : World) (read : Option EtherAddr)
      → sys.ether_aton device ≡ read
      → link_by_eth sys interfaces s device ds read w ≡ done ((false, s), ds) w
  unfolding link_by_eth
  link_by_eth-fails s device ds w none e = refl
  link_by_eth-fails s device ds w (some eth) e = rw (name2ether-read device eth w e) refl

  link_named-by_name :
      (s : Service) (device : Text) (ds : List Device) (w : World) (d : Option Device)
      → link_named sys interfaces s device ds d w ≡ done (link_device d s, ds) w
  unfolding link_named
  link_named-by_name s device ds w none =
      link_by_eth-fails s device ds w (sys.ether_aton device) refl
  link_named-by_name s device ds w (some d) = refl

  -- The device of a name, if it is there
  abbrev pub named_device : Text → List Device → Option Device
  named_device name ds = device_at ds (find_name name ds)

  -- A device goes behind those that the service has, of which there are at most 16; without a
  -- device, or behind 16, the call fails and leaves the service.
  abbrev pub with_device : Option Device → Service → Bool × Service
  with_device none s = (false, s)
  with_device (some d) s =
      if ltb (length s.devices) 16
      then (true, record s { devices = s.devices ++ d.name ∷ [] })
      else (false, s)

  link_device-with_device : (d : Option Device) (s : Service) → link_device d s ≡ with_device d s
  unfolding link_device_add
  link_device-with_device none s = refl
  link_device-with_device (some d) s = refl

  -- What comes of a word, by the list of devices behind their set-up
  abbrev pub link_outcome : Service → Text → Option (List Device) → World → Run Bound
  link_outcome s device none w = fault
  link_outcome s device (some ds) w = done (with_device (named_device device ds) s, ds) w

  -- A word that is no star and not `all` adds the device of that name to a link service, where
  -- there is one and the service has less than 16, and fails otherwise: the ethernet address or the
  -- host name of a device never finds it. No global changes, and the list of devices is
  -- initialised; where that reads the null address of an interface, the call faults.
  pub service_link_add-by_name :
      (s : Service) (device : Text) (ds : List Device) (w : World)
      → (strcmp_eq device (codes "*") || strcmp_eq device (codes "all")) ≡ false
      → service_link_add sys interfaces s device ds w
        ≡ link_outcome s device (devices_ready interfaces ds) w
  unfolding service_link_add device_search_by_name
  service_link_add-by_name s device ds w named = elim (Option-cases (devices_ready interfaces ds)) [
    | inl e ↦ simp (named, e)
    | inr (ready, e) ↦
        let d = named_device device ready in
        simp (named, e, sym (link_device-with_device d s)) (link_named-by_name s device ready w d)
  ]
