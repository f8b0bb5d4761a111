-- ===== src/Rmp/Handler.antt =====
-- `rmp_handler`. The replies are built in `char buf[4096]`, so their logging reads within it.
pub mod Reads
pub mod Boots
use bootd.Base.{
  false, true, ℕ, suc, ◌+◌, ◌-◌, ◌%◌, Bool, not, ◌&&◌, ◌||◌, Option, none, some, List, [], ◌∷◌,
  ◌++◌, ◌==◌, ltb, leb, min, if◌then◌else◌, length, Text, strcmp_eq, ℤ, pos, negsuc, decr,
}
use bootd.Server.State.{Host, File, Listener}
use bootd.Server.Run.{Cmd, pure, done, need, fail_fault, get_world, ◌>>=◌, ◌>>◌}
use bootd.Server.System.{Opened, System, syscall, opened, failed}
use bootd.Server.Packet.{u16, be16}
use bootd.Services.Ids
use bootd.Services.Ids.{allows}
use bootd.Util.Walk.{util_ether2host, util_name2host}
use bootd.Util.Files.{util_name2file}
use bootd.Util.Read.{util_read}
use bootd.Listener.Send.{send}
use bootd.Host.Memory.{read_host, read_session}
use bootd.Host.Sessions.{
  Check, no_error, no_session, bad_sid, host_session_delete, host_session_add, host_session_check,
}
use bootd.Host.Add.{host_clone}
use bootd.Tftp.Handler.{session_of, update_session, bf_fd, set_fd, open_path}
use bootd.Rmp.Packet.{
  RmpHeader, seq, rmp_header, BootReq, boot_req, rmp_machtype, rmp_logpacket, reply_header,
  rmp_addr, sap_hp, cntl_hp, dxsap_hp, probe_sid,
}
use bootd.Rmp.Op
use bootd.Rmp.Code

-- For the server's multicast address or the listener's own, with HP's access points
unfoldable pub is_rmp : Listener → RmpHeader → Bool
is_rmp l h =
    (strcmp_eq h.daddr rmp_addr || strcmp_eq h.daddr l.eth)
    && h.dsap == sap_hp
    && h.cntl == cntl_hp
    && h.dxsap == dxsap_hp

-- `++rmp_sid`
unfoldable pub next_sid : Cmd (Unit {0})
next_sid w = done tt (record w { rmp_sid = suc w.rmp_sid })

module _ (sys : System) (l : Listener) where
  -- A probe's reply: the name is copied behind 35 bytes of `buf[4096]`, its length is one byte.
  unfoldable pub probe_reply : RmpHeader → (retcode : ℕ) → Text → Cmd (Unit {0})
  probe_reply req retcode name =
      if leb (35 + length name + 1) 4096
      then (do
        let flnm_size = length name % 256
        let len = 21 + flnm_size
        w ← get_world
        send sys l none
            (reply_header l req len Op.boot_repl retcode 0
              ++ (be16 2 ++ (flnm_size ∷ name ++ 0 ∷ sys.stale w.calls)))
            len
        pure tt)
      else fail_fault

  unfoldable pub probe_file : RmpHeader → Option File → Cmd (Unit {0})
  probe_file req none = probe_reply req Code.nodflt []
  probe_file req (some f) = do name ← need f.name; probe_reply req Code.okay name

  -- The file of that number. A counter that is below 0 comes to no file, as a host has less than
  -- 2^31 of them.
  abbrev probed_file : Host → ℤ → Option File
  probed_file h (pos n) = util_name2file (some h) Ids.rmp none n
  probed_file h (negsuc n) = none

  abbrev is_zero : ℤ → Bool
  is_zero (pos n) = n == 0
  is_zero (negsuc n) = false

  -- The server's name for sequence number 0, else the file names one by one
  unfoldable pub on_probe : RmpHeader → Host → Cmd (Unit {0})
  unfolding util_name2file
  on_probe req h =
      if is_zero (seq req)
      then (do name ← need l.name; probe_reply req Code.okay name)
      else probe_file req (probed_file h (decr (seq req)))

  -- Behind `open`: its descriptor, or 0 where it failed, goes to the session.
  unfoldable pub boot_opened : ℕ → Opened → Cmd (Unit {0})
  boot_opened p (failed e) = update_session p (set_fd 0)
  boot_opened p (opened fd) = update_session p (set_fd fd)

  unfoldable pub boot_granted : ℕ → File → (granted : Bool) → Cmd (Unit {0})
  boot_granted p f false = pure tt
  boot_granted p f true = do
    o ← open_path sys l (record { addr = 0; port = 0 }) (record { addr = 0; port = 0 }) f.path
    boot_opened p o

  -- The log line behind the branches reads `f->path`, also where no file was found.
  unfoldable pub boot_file : ℕ → Option File → Cmd (Unit {0})
  boot_file p none = fail_fault
  boot_file p (some f) = do
    next_sid
    w ← get_world
    granted ← host_session_add sys p Ids.rmp w.rmp_sid
    boot_granted p f granted

  -- A boot request that is no probe. The reply that it prepares is not sent.
  unfoldable pub on_boot : ℕ → Host → BootReq → Cmd (Unit {0})
  on_boot p h req = boot_file p (util_name2file (some h) Ids.rmp (some req.flnm) 0)

  unfoldable pub on_boot_req : ℕ → Host → RmpHeader → (packet : List ℕ) → Cmd (Unit {0})
  on_boot_req p h req packet = do
    body ← boot_req packet
    if not (body.version == 2)
        then pure tt
        else if req.session == probe_sid
        then on_probe req h
        else on_boot p h body

  -- The reply to a read request: code, data, and `npktlen`, 18 more than the `size`
  unfoldable pub read_reply :
      RmpHeader → (retcode : ℕ) → (bytes : List ℕ) → (npktlen : ℕ) → Cmd (Unit {0})
  read_reply req retcode bytes npktlen = do
    w ← get_world
    send sys l none
        (reply_header l req npktlen Op.read_repl retcode req.session
          ++ (bytes ++ sys.stale w.calls))
        npktlen
    pure tt

  -- `util_read` and the code for what it returned. Where it failed, `size` is -1.
  unfoldable pub read_result : RmpHeader → Option (List ℕ) → Cmd (Unit {0})
  read_result req none = read_reply req Code.abort [] 17
  read_result req (some []) = read_reply req Code.eof [] 18
  read_result req (some (b ∷ bs)) = read_reply req Code.okay (b ∷ bs) (18 + length (b ∷ bs))

  -- At most 1482 bytes, from the offset that the sequence number gives
  unfoldable pub on_read : ℕ → RmpHeader → (packet : List ℕ) → Check → Cmd (Unit {0})
  on_read p req packet no_session = read_reply req Code.abort [] 18
  on_read p req packet bad_sid = read_reply req Code.badsid [] 18
  on_read p req packet no_error = do
    size ← need (u16 packet 32)
    s ← session_of p
    x ← read_session s
    got ← syscall (λ k. util_read sys k (bf_fd x.fds) (min size 1482) (seq req))
    read_result req got

  unfoldable pub dispatch : ℕ → Host → RmpHeader → (packet : List ℕ) → Cmd (Unit {0})
  dispatch p h req packet =
      if req.type == Op.boot_req
      then on_boot_req p h req packet
      else if req.type == Op.read_req
      then (do c ← host_session_check sys p Ids.rmp req.session; on_read p req packet c)
      else if req.type == Op.boot_done
      then host_session_delete p
      else pure tt

  -- An unknown sender of a boot request may be known by its machine type; it gets a copy of that host.
  unfoldable pub clone_for : RmpHeader → Option ℕ → Cmd (Option ℕ)
  clone_for req none = pure none
  clone_for req (some src) = do p ← host_clone sys src none (some req.saddr) none; pure (some p)

  unfoldable pub find_client : RmpHeader → (packet : List ℕ) → Option ℕ → Cmd (Option ℕ)
  find_client req packet (some p) = pure (some p)
  find_client req packet none =
      if req.type == Op.boot_req
      then (do machtype ← rmp_machtype packet; src ← util_name2host machtype; clone_for req src)
      else pure none

  unfoldable pub serve_client : RmpHeader → (packet : List ℕ) → Option ℕ → Cmd (Unit {0})
  serve_client req packet none = pure tt
  serve_client req packet (some p) = do
    h ← read_host p
    if not (allows h.service Ids.rmp) then pure tt else dispatch p h req packet

  unfoldable pub rmp_handler : (packet : List ℕ) → (pktlen : ℕ) → Cmd (Unit {0})
  rmp_handler packet pktlen = if ltb pktlen 32 then pure tt else (do
    req ← rmp_header packet
    if not (is_rmp l req) then pure tt else (do
      rmp_logpacket packet req
      found ← util_ether2host req.saddr
      client ← find_client req packet found
      serve_client req packet client))
