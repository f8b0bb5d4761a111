-- ===== src/Dhcp.antt =====
-- src/dhcp.c: the DHCP handler, with the packet of src/dhcp.h.
pub mod Silent
use bootd.Base.{
  ℕ, Bool, true, false, not, Option, none, some, List, [], ◌∷◌, ◌==◌, ltb, if◌then◌else◌, get_elem?,
  length, drop, Text, c_string, strcmp_eq,
}
use bootd.Server.State.{Listener}
use bootd.Server.Run.{Cmd, pure, need, ◌>>=◌, ◌>>◌}
use bootd.Server.Packet.{slice}
use bootd.Services.Ids
use bootd.Services.Ids.{allows}
use bootd.Util.Walk.{util_ether2host}
use bootd.Host.Memory.{read_host}

-- The string from an offset on, wherever its 0 stands
unfoldable pub string_at : (packet : List ℕ) → (offset : ℕ) → Option Text
string_at packet offset = c_string (drop offset packet)

-- Whether the client asked for another server: `strcmp` with `l->name`, which may be null.
unfoldable pub for_other_server : Listener → (sname : Text) → Cmd Bool
for_other_server l [] = pure false
for_other_server l (c ∷ cs) = do name ← need l.name; pure (not (strcmp_eq (c ∷ cs) name))

-- Behind the lookup: only the log tells the branches apart.
unfoldable pub dhcp_dispatch : (op : ℕ) → Option ℕ → Cmd (Unit {0})
dhcp_dispatch op none = pure tt
dhcp_dispatch op (some p) = do
  h ← read_host p
  if op == 1 then (if not (allows h.service Ids.dhcp) then pure tt else pure tt) else pure tt

-- `strlen(req->file)` is read only if `sname` is short enough.
unfoldable pub malformed : (packet : List ℕ) → (sname : Text) → Cmd Bool
malformed packet sname =
    if ltb 64 (length sname)
    then pure true
    else (do file ← need (string_at packet 108); pure (ltb 128 (length file)))

unfoldable pub dhcp_handler : Listener → (packet : List ℕ) → Cmd (Unit {0})
dhcp_handler l packet = do
  op ← need (get_elem? packet 0)
  hops ← need (get_elem? packet 3)
  if ltb 16 hops then pure tt else (do
    sname ← need (string_at packet 44)
    bad ← malformed packet sname
    if bad then pure tt else (do
      other ← for_other_server l sname
      if other then pure tt else (do
        chaddr ← need (slice packet 28 6)
        p ← util_ether2host chaddr
        dhcp_dispatch op p)))
