-- ===== src/Daemon/Main.antt =====
-- `main` of src/bootd.c.
pub mod Loop
use bootd.Base.{ℕ, zero, suc, Option, none, some, List, [], ℤ, Text}
use bootd.Server.Run.{Cmd, pure, done, log_err, ◌>>=◌, ◌>>◌}
use bootd.Server.System.{System}
use bootd.Services.Table.{Added, added, ignored, invalid_id, service_init}
use bootd.Devices.{Interface}
use bootd.Config.Scanner.{Reads}
use bootd.Config.Values.{Basic}
use bootd.Config.Args.{Arg, conf_args, conf_file}
use bootd.Daemon.Network.{Network}
use bootd.Daemon.Link.{LinkLibrary}
use bootd.Daemon.Link.New.{Held}
use bootd.Daemon.Select.{listener_select}
use bootd.Daemon.Start.{service_start}

-- So many rounds of `while (g_run)`: no code sets `g_run` to 0.
unfoldable pub server_loop :
    System → Network → (arp_hdr : ℕ) → (listeners : ℕ) → (rounds : ℕ) → Cmd (Unit {0})
server_loop sys net arp_hdr listeners zero = pure tt
server_loop sys net arp_hdr listeners (suc n) = do
  listener_select sys net arp_hdr listeners
  server_loop sys net arp_hdr listeners n

-- `service_init` on the globals
unfoldable pub init_services : Added → Cmd (Unit {0})
init_services (added l) w = done tt (record w { l_services = l })
init_services ignored w = done tt w
init_services invalid_id w = log_err w

module _ (sys : System) (interfaces : List Interface) (getservbyname : Text → Option ℕ)
    (open_config : Text → Option Reads) (net : Network) (lib : LinkLibrary) (arp_hdr : ℕ)
    (fuel listeners : ℕ) where
  -- Behind the command line. The change to `c_directory` has no effect on what is modelled.
  unfoldable pub main_configured :
      (rounds : ℕ) → Option (Option Text × Option (ℤ × Option Text)) → Cmd (Unit {0})
  unfolding conf_file service_start server_loop
  main_configured rounds none = log_err
  main_configured rounds (some (c_file, log)) = do
    conf ←
        conf_file sys interfaces getservbyname open_config fuel c_file
          (record { c_chroot = none; c_directory = none }) []
    service_start sys interfaces net lib conf.1 (record { lnets = []; pcaps = [] })
    server_loop sys net arp_hdr listeners rounds

  -- `main` for so many rounds of its loop
  unfoldable pub main : (args : List Arg) → (rounds : ℕ) → Cmd (Unit {0})
  unfolding service_init init_services conf_args main_configured
  main args rounds = do init_services service_init; main_configured rounds (conf_args args)
