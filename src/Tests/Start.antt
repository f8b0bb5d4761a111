-- ===== src/Tests/Start.antt =====
-- The start of the daemon: link listeners, filters, bound services, options and the log file.
use bootd.Base.{
  ℕ, ◌≡◌, refl, sym, none, some, true, List, [], ◌∷◌, ◌++◌, arith, codes, strcmp_eq, pos, Option,
  Text,
}
use bootd.Server.State.{Listener, World, Service, tftp_service}
use bootd.Server.Run.{done, fault}
use bootd.Services.Ids.{allows}
use bootd.Devices.{Device, device_new, find_name, device_search_by_name, devices_ready}
use bootd.Daemon.Link.{LinkLibrary}
use bootd.Daemon.Link.New.{Held, listener_new_link}
use bootd.Daemon.Link.Held.{LinkOutcome, listener_new_link-outcome}
use bootd.Daemon.Start.{
  start_services, service_start, start_one, filter_devices, filter_device, filter_at, or_filter,
}
use bootd.Daemon.Start.Bound.{service_start-bound}
use bootd.Daemon.Start.Links.{LinksOk}
use bootd.Daemon.Start.Unbound.{service_start-LinksOk}
use bootd.Daemon.Start.Filters.{filter_for}
use bootd.Strings.Words.{str_get_loglevel}
use bootd.Strings.Print.{str_sai}
use bootd.Strings.Print.Sai.{HoldsText, str_sai-HoldsText}
use bootd.Services.Names.{decimal}
use bootd.Log.File.{log_initial}
use bootd.Log.File.Last.{Call, after_calls, log_set_file-last}
use bootd.Config.Args.{config, loglevel, conf_args}
use bootd.Config.Args.Last.{conf_args-last}
use bootd.Listener.Registry.{mem_id}
use bootd.Tests.Data.{sys, world, server}
use bootd.Tests.Daemon.{net, link_world}

-- Libraries that answer each call; pcap's third handle fails to take a filter.
abbrev lib : LinkLibrary
lib = record {
  libnet_init = λ k device. some 21;
  libnet_get_hwaddr = λ k h. some (1 ∷ 2 ∷ 3 ∷ 4 ∷ 5 ∷ 6 ∷ []);
  libnet_get_ipaddr4 = λ k h. 0x0a000001;
  ntohl = λ ip. ip;
  host_name = λ k. codes "boot.example";
  pcap_open_live = λ k device. some 31;
  pcap_datalink = λ k h. 1;
  pcap_fileno = λ k h. 9;
  pcap_lookupnet = λ k device. some 0xffffff00;
  pcap_compile = λ k h filter mask. some 1;
  pcap_setfilter = λ k h program. true;
  fcntl_getfl = λ k fd. some 2;
  fcntl_setfl = λ k fd flags. true;
  ioctl = λ k fd request on. true;
}

abbrev before : Held
before = record { lnets = 20 ∷ []; pcaps = 30 ∷ [] }

listener_new_link-outcome_example :
    (o : Option Listener) × (after : Held) × (k : ℕ) × (listener_new_link lib
        (some (codes "eth0"))
        (some (codes "(rarp)"))
        before
        world
      ≡ done (o, after) (record world { calls = k; next_id = 4 }))
    × LinkOutcome 3 before o after
listener_new_link-outcome_example =
    listener_new_link-outcome lib (codes "eth0") (some (codes "(rarp)")) before world

-- A device that the services for RARP and RMP are bound to, and a bound TFTP service
abbrev eth0 : Device
eth0 = record (device_new (codes "eth0")) { eth = 1 ∷ 2 ∷ 3 ∷ 4 ∷ 5 ∷ 6 ∷ [] }

abbrev link_service : Text → ℕ → Text → Service
link_service name id filter = record {
  name = name;
  id = id;
  devices = codes "eth0" ∷ [];
  bindaddr = [];
  defport = 0;
  filter = filter;
  service = none;
}

abbrev link_services : List Service
link_services =
    link_service (codes "rarp") 1 (codes "(rarp)")
    ∷ link_service (codes "rmp") 8 (codes "(hp)")
    ∷ []

abbrev bound_tftp : Service
bound_tftp = record {
  name = codes "tftp";
  id = 16;
  devices = [];
  bindaddr = server ∷ [];
  defport = 69;
  filter = [];
  service = some tftp_service;
}

abbrev filtered : Device
filtered = record eth0 { filter = filter_for sys eth0 (codes "(rarp)" ∷ codes "(hp)" ∷ []) }

link_services-started :
    (w : World) → start_services sys [] net link_services (eth0 ∷ []) w ≡ done (filtered ∷ []) w
unfolding start_services start_one filter_devices filter_device filter_at or_filter allows
    device_search_by_name find_name devices_ready strcmp_eq
link_services-started w = refl

abbrev bound_world : World
bound_world = record world { l_services = link_services ++ bound_tftp ∷ [] }

service_start-bound_example : service_start sys [] net lib (eth0 ∷ []) before bound_world ≡ fault
unfolding allows
service_start-bound_example =
    service_start-bound sys [] net lib link_services [] bound_tftp server [] (eth0 ∷ [])
      (filtered ∷ []) before bound_world bound_world (λ k from to. (7, refl)) (λ k fd. (refl, refl))
      refl (link_services-started bound_world) refl refl refl

abbrev started_world : World
started_world = record link_world { l_services = link_services }

started_world-LinksOk : LinksOk started_world
unfolding mem_id
started_world-LinksOk = (
  record {
    distinct = (((λ e. cc), tt), (tt, tt));
    alive = (refl, (refl, tt));
    below = (omega arith, (omega arith, tt));
    freed_below = tt;
  },
  (refl, (refl, tt)),
)

service_start-LinksOk_example :
    (held : Held) × (u : World) × (service_start sys [] net lib (eth0 ∷ []) before started_world
      ≡ done (filtered ∷ [], held) u)
    × LinksOk u
service_start-LinksOk_example =
    service_start-LinksOk sys [] net lib (eth0 ∷ []) (filtered ∷ []) before started_world
      started_world started_world-LinksOk (refl, (refl, tt)) (link_services-started started_world)

conf_args-last_example :
    conf_args (loglevel (codes "info") ∷ config (codes "a") ∷ config (codes "b") ∷ [])
    ≡ some (some (codes "b"), some (pos 1, none))
unfolding str_get_loglevel strcmp_eq
conf_args-last_example =
    conf_args-last (loglevel (codes "info") ∷ config (codes "a") ∷ config (codes "b") ∷ [])

-- A log file, standard output, a failure, and another log file
abbrev log_calls : List Call
log_calls =
    (some (codes "a.log"), some 3)
    ∷ (some (codes "stdout"), none)
    ∷ (some (codes "b.log"), none)
    ∷ (some (codes "c.log"), some 4)
    ∷ []

log_set_file-last_example : after_calls log_calls log_initial ≡ record { fd = 4; opened = 4 ∷ [] }
unfolding strcmp_eq
log_set_file-last_example = log_set_file-last log_calls (refl, (refl, tt))

str_sai-HoldsText_example :
    HoldsText 22 (codes "10.0.0.1:69") (str_sai (λ ip. codes "10.0.0.1") (some server) 22)
unfolding decimal
str_sai-HoldsText_example =
    str_sai-HoldsText (λ ip. codes "10.0.0.1") (some server) 22 (λ ip. omega arith)
      (λ s e. let same : server ≡ s = cc in rw (sym same) (omega arith)) (omega arith)
