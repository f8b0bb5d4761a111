-- ===== src/Daemon/Start/Filtered.antt =====
-- The filters of the devices behind the first loop of `service_start`.
use bootd.Base.{List, [], if◌then◌else◌, Text}
use bootd.Server.State.{Service}
use bootd.Server.System.{System}
use bootd.Services.Ids
use bootd.Services.Ids.{allows}
use bootd.Daemon.Network.{Network}
use bootd.Daemon.Start.{names_read}
use bootd.Daemon.Start.Filters.{hits}
use bootd.Daemon.Start.Place.{Place}

module _ (sys : System) where
  -- The filters that one service adds
  abbrev added_by : Text → Service → List Text
  added_by name s = if allows s.id Ids.listen_link then hits name s.filter (names_read s) else []
