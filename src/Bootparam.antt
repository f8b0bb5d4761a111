-- ===== src/Bootparam.antt =====
-- src/bootparam.c: the two procedures of the bootparam service.
pub mod Replies
use bootd.Base.{ℕ, not, Option, none, some, [], if◌then◌else◌, Text}
use bootd.Server.State.{IpAddr, File, Host, Listener}
use bootd.Server.Run.{Cmd, pure, ◌>>=◌, ◌>>◌}
use bootd.Services.Ids
use bootd.Services.Ids.{allows}
use bootd.Util.Walk.{util_ip2host, util_name2host}
use bootd.Util.Files.{util_name2file}
use bootd.Listener.Registry.{listener_search_by_fd}
use bootd.Host.Memory.{read_host}

-- `bp_whoami_res`; the domain name is always empty.
pub record Whoami : Type 0 where
  pub client_name : Option Text
  pub domain_name : Text
  pub router_address : IpAddr

-- `bp_getfile_res`
pub record Getfile : Type 0 where
  pub server_name : Option Text
  pub server_path : Option Text
  pub server_address : IpAddr

-- The members of `struct svc_req` and `SVCXPRT` of the RPC library that the code uses: the port of
-- the transport.
pub record SvcXprt : Type 0 where
  pub xp_port : ℕ

pub record SvcReq : Type 0 where
  pub rq_xprt : SvcXprt

-- `rqstp->rq_xprt->xp_port`, which the code takes for a descriptor
abbrev pub request_fd : SvcReq → ℕ
request_fd rqstp = rqstp.rq_xprt.xp_port

-- Behind the guards: the listener that was looked up.
unfoldable pub whoami_reply : Host → Option Listener → Option Whoami
whoami_reply h none = none
whoami_reply h (some l) =
    some (record { client_name = h.name; domain_name = []; router_address = l.ip })

unfoldable pub whoami_host : (fd : ℕ) → Option ℕ → Cmd (Option Whoami)
whoami_host fd none = pure none
whoami_host fd (some p) = do
  h ← read_host p
  if not (allows h.service Ids.bootparam)
      then pure none
      else (do l ← listener_search_by_fd fd; pure (whoami_reply h l))

-- `bootparamproc_whoami_1_svc`; a null result is `none`.
unfoldable pub whoami : (client_address : IpAddr) → SvcReq → Cmd (Option Whoami)
whoami client_address rqstp = do p ← util_ip2host client_address; whoami_host (request_fd rqstp) p

unfoldable pub getfile_reply : File → Option Listener → Option Getfile
getfile_reply f none = none
getfile_reply f (some l) =
    some (record { server_name = f.server; server_path = f.path; server_address = l.ip })

unfoldable pub getfile_of : (fd : ℕ) → Option File → Cmd (Option Getfile)
getfile_of fd none = pure none
getfile_of fd (some f) = do l ← listener_search_by_fd fd; pure (getfile_reply f l)

unfoldable pub getfile_host : (file_id : Text) → (fd : ℕ) → Option ℕ → Cmd (Option Getfile)
getfile_host file_id fd none = pure none
getfile_host file_id fd (some p) = do
  h ← read_host p
  if not (allows h.service Ids.bootparam)
      then pure none
      else getfile_of fd (util_name2file (some h) Ids.bootparam (some file_id) 0)

-- `bootparamproc_getfile_1_svc`
unfoldable pub getfile : (client_name file_id : Text) → SvcReq → Cmd (Option Getfile)
getfile client_name file_id rqstp = do
  p ← util_name2host client_name
  getfile_host file_id (request_fd rqstp) p
