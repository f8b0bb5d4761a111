-- ===== src/Host/Memory.antt =====
-- Reads and writes of hosts and sessions through their pointers.
use bootd.Base.{ℕ, Option, none, some, get_elem?, set}
use bootd.Server.State.{Host, Session}
use bootd.Server.Run.{Cmd, done, need}

unfoldable pub read_host : ℕ → Cmd Host
read_host p w = need (get_elem? w.hosts p) w

unfoldable pub write_host : ℕ → Host → Cmd (Unit {0})
write_host p h w = done tt (record w { hosts = set w.hosts p h })

abbrev live_session : Option (Option Session) → Option Session
live_session none = none
live_session (some x) = x

-- A read of a freed session is a fault.
unfoldable pub read_session : ℕ → Cmd Session
read_session s w = need (live_session (get_elem? w.sessions s)) w

unfoldable pub write_session : ℕ → Option Session → Cmd (Unit {0})
write_session s x w = done tt (record w { sessions = set w.sessions s x })
