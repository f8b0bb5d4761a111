-- ===== src/Tftp/Handler.antt =====
-- `tftp_handler`.
pub mod Denied
pub mod Requests
pub mod Acks
use bootd.Base.{
  ℕ, ◌+◌, ◌*◌, ◌%◌, ◌^◌, not, ◌||◌, Option, none, some, List, [], ◌∷◌, ◌++◌, ◌==◌, if◌then◌else◌,
  length, set, Text, codes,
}
use bootd.Server.State.{Host, File, Session, Listener, SockAddr, tftp_service}
use bootd.Server.Run.{Cmd, pure, need, ◌>>=◌, ◌>>◌}
use bootd.Server.System.{
  System, syscall, Opened, opened, failed, Errno, enoent, eacces, eperm, emfile, enfile,
  other_errno,
}
use bootd.Server.Packet.{u16, be16}
use bootd.Services.Ids
use bootd.Services.Ids.{allows}
use bootd.Util.Walk.{util_ip2host}
use bootd.Util.Files.{util_name2file}
use bootd.Listener.Registry.{listener_new_udp, listener_add}
use bootd.Listener.Send.{send}
use bootd.Host.Memory.{read_host, read_session, write_session}
use bootd.Host.Sessions.{
  Check, no_error, no_session, bad_sid, host_session_delete, host_session_add, host_session_check,
}
use bootd.Tftp.Packet.{tftp_log_msgpacket, tftp_get_filename, tftp_send_error}

-- The address of `h->session`, a fault if it is null.
unfoldable pub session_of : ℕ → Cmd ℕ
session_of p = do h ← read_host p; need h.session

-- A change to `*h->session`
unfoldable pub update_session : ℕ → (Session → Session) → Cmd (Unit {0})
update_session p f = do s ← session_of p; x ← read_session s; write_session s (some (f x))

-- `BF_FD`, the first of the session's descriptors
abbrev pub bf_fd : List ℕ → ℕ
bf_fd [] = 0
bf_fd (fd ∷ fds) = fd

abbrev pub set_fd : ℕ → Session → Session
set_fd fd x = record x { fds = set x.fds 0 fd }

-- The `errno` of a failed `open` as a TFTP error code
abbrev pub open_error : Errno → ℕ
open_error enoent = 1
open_error eacces = 2
open_error eperm = 2
open_error emfile = 0
open_error enfile = 0
open_error other_errno = 0

module _ (sys : System) (l : Listener) (from to : SockAddr) where
  unfoldable pub reject : (err : ℕ) → Text → Cmd (Unit {0})
  reject = tftp_send_error sys l from

  unfoldable pub reject_errno : ℕ → Cmd (Unit {0})
  reject_errno err = do msg ← syscall sys.strerror; reject err msg

  -- Block `n`, read at an offset of the session's file and sent over `via`. Where the read fails an
  -- error goes out, and then the first 3 bytes of the block, as `size` is -1.
  unfoldable pub send_block : (via : Listener) → ℕ → (n offs : ℕ) → Cmd (Unit {0})
  send_block via p n offs = do
    s ← session_of p
    x ← read_session s
    got ← syscall (λ k. sys.read_at k (bf_fd x.fds) 512 offs)
    elim got [
      | none ↦ (do
        reject_errno 0
        send sys via (some from) (be16 3 ++ be16 n) 3
        tftp_log_msgpacket (be16 3 ++ be16 n) 3)
      | some bytes ↦ (do
        send sys via (some from) (be16 3 ++ (be16 n ++ bytes)) (4 + length bytes)
        tftp_log_msgpacket (be16 3 ++ (be16 n ++ bytes)) (4 + length bytes))
    ]

  -- `open` of a path; at a null path the system answers EFAULT.
  unfoldable pub open_path : Option Text → Cmd Opened
  open_path none = pure (failed other_errno)
  open_path (some path) = syscall (λ k. sys.open_file k path)

  -- Behind a successful `open`
  unfoldable pub start_transfer : ℕ → (sid : ℕ) → Option Listener → ℕ → Cmd (Unit {0})
  start_transfer p sid none fd = do
    update_session p (set_fd fd)
    update_session p (λ x. record x { sid = sid; link = none })
    reject_errno 0
  start_transfer p sid (some nl) fd = do
    update_session p (set_fd fd)
    update_session p (λ x. record x { sid = sid; link = some nl.fd })
    send_block nl p 1 0

  unfoldable pub opened_or_failed : ℕ → (sid : ℕ) → Option Listener → Opened → Cmd (Unit {0})
  opened_or_failed p sid nl (failed e) = do update_session p (set_fd 0); reject_errno (open_error e)
  opened_or_failed p sid nl (opened fd) = start_transfer p sid nl fd

  -- A read request for a file that the host may have
  unfoldable pub serve_file : ℕ → File → Cmd (Unit {0})
  serve_file p f = do
    host_session_delete p
    nl ← listener_new_udp sys (record { addr = to.addr; port = 0 }) (some from) (some tftp_service)
    listener_add nl
    granted ← host_session_add sys p Ids.tftp from.port
    if not granted
        then reject 0 (codes "server busy")
        else (do o ← open_path f.path; opened_or_failed p from.port nl o)

  unfoldable pub on_rrq : ℕ → Host → (packet : List ℕ) → (pktlen : ℕ) → Cmd (Unit {0})
  on_rrq p h packet pktlen = do
    name ← tftp_get_filename packet pktlen
    elim (util_name2file (some h) Ids.tftp name 0) [
      | none ↦ reject 1 (codes "file not configured")
      | some f ↦ serve_file p f
    ]

  unfoldable pub answer_ack : ℕ → (n : ℕ) → Check → Cmd (Unit {0})
  answer_ack p n no_error = send_block l p ((n + 1) % 2 ^ 16) (n * 512)
  answer_ack p n no_session = if n == 1 then pure tt else reject 5 (codes "no session")
  answer_ack p n bad_sid = if n == 1 then pure tt else reject 5 (codes "no session")

  unfoldable pub on_ack : ℕ → (packet : List ℕ) → Cmd (Unit {0})
  on_ack p packet = do
    c ← host_session_check sys p Ids.tftp from.port
    n ← need (u16 packet 2)
    answer_ack p n c

  -- The switch over the opcode
  unfoldable pub dispatch : ℕ → Host → (packet : List ℕ) → (pktlen op : ℕ) → Cmd (Unit {0})
  dispatch p h packet pktlen op =
      if op == 1
      then on_rrq p h packet pktlen
      else if op == 2 || op == 3
      then reject 0 (codes "writing files not supported")
      else if op == 4
      then on_ack p packet
      else pure tt

  -- Behind the lookup of the sender
  unfoldable pub serve_client : (packet : List ℕ) → (pktlen : ℕ) → Option ℕ → Cmd (Unit {0})
  serve_client packet pktlen none = reject 2 (codes "access denied, client unknown")
  serve_client packet pktlen (some p) = do
    h ← read_host p
    if not (allows h.service Ids.tftp)
        then reject 2 (codes "access denied, tftp not allowed for this host")
        else (do op ← need (u16 packet 0); dispatch p h packet pktlen op)

  unfoldable pub tftp_handler : (packet : List ℕ) → (pktlen : ℕ) → Cmd (Unit {0})
  tftp_handler packet pktlen = do
    tftp_log_msgpacket packet pktlen
    found ← util_ip2host from.addr
    serve_client packet pktlen found
