-- ===== src/Bootparam/Replies.antt =====
-- The two procedures against what a client may learn.
use bootd.Base.{
  ℕ, ◌≡◌, refl, Option, none, some, List, [], if◌then◌else◌, get_elem?, Text, inl, inr, Bool-cases,
  Option-cases, ◌==◌,
}
use bootd.Server.State.{IpAddr, File, Host, Listener, World}
use bootd.Server.Run.{done}
use bootd.Services.Ids
use bootd.Services.Ids.{allows}
use bootd.Util.Walk.Found.{
  IsRegistry, ip2host-first, name2host-first, named_as, host_of, first_cases,
}
use bootd.Util.Files.{util_name2file}
use bootd.Listener.Registry.{search_fd, listener_search_by_fd}
use bootd.Host.Memory.{read_host}
use bootd.Bootparam.{
  SvcReq, whoami, whoami_host, whoami_reply, getfile, getfile_host, getfile_of, getfile_reply,
}

-- A host, if its mask allows bootparam.
abbrev pub permitted : Option Host → Option Host
permitted none = none
permitted (some h) = if allows h.service Ids.bootparam then some h else none

abbrev pub both {ℓ} : {A B C : Type ℓ} → Option A → Option B → (A → B → C) → Option C
both none b f = none
both (some a) none f = none
both (some a) (some b) f = some (f a b)

abbrev pub file_for : Text → Option Host → Option File
file_for file_id none = none
file_for file_id (some h) = util_name2file (some h) Ids.bootparam (some file_id) 0

whoami_reply-both :
    (h : Host) (o : Option Listener)
    → whoami_reply h o
      ≡ both
          (some h)
          o
          (λ h l. record { client_name = h.name; domain_name = []; router_address = l.ip })
unfolding whoami_reply
whoami_reply-both h none = refl
whoami_reply-both h (some l) = refl

getfile_reply-both :
    (f : File) (o : Option Listener)
    → getfile_reply f o
      ≡ both
          (some f)
          o
          (λ f l. record { server_name = f.server; server_path = f.path; server_address = l.ip })
unfolding getfile_reply
getfile_reply-both f none = refl
getfile_reply-both f (some l) = refl

module _ {w : World} (i : ℕ) (h : Host) (e : get_elem? w.hosts i ≡ some h) where
  whoami_host-both :
      (fd : ℕ)
      → whoami_host fd (some i) w
        ≡ done
            (both
              (permitted (some h))
              (search_fd fd w.g_listeners)
              (λ h l. record { client_name = h.name; domain_name = []; router_address = l.ip }))
            w
  unfolding whoami_host read_host listener_search_by_fd
  whoami_host-both fd = elim (Bool-cases (allows h.service Ids.bootparam)) [
    | inl y ↦ simp (e, y, whoami_reply-both)
    | inr n ↦ simp (e, n)
  ]

  getfile_host-both :
      (file_id : Text) (fd : ℕ)
      → getfile_host file_id fd (some i) w
        ≡ done
            (both (file_for file_id (permitted (some h))) (search_fd fd w.g_listeners) (λ f l.
              record { server_name = f.server; server_path = f.path; server_address = l.ip }))
            w
  unfolding getfile_host getfile_of read_host listener_search_by_fd
  getfile_host-both file_id fd = elim (Bool-cases (allows h.service Ids.bootparam)) [
    | inl y ↦ elim (Option-cases (util_name2file (some h) Ids.bootparam (some file_id) 0)) [
      | inl none_e ↦ simp (e, y, none_e)
      | inr (f, fe) ↦ simp (e, y, fe, getfile_reply-both)
    ]
    | inr n ↦ simp (e, n)
  ]

module _ {w : World} {xs : List (ℕ × Host)} (r : IsRegistry w xs) where
  -- In a registry that ends, `whoami` returns and changes nothing. The answer is there exactly if the first host with the
  -- client's address may use bootparam and a listener has the port number of the request's transport
  -- for its descriptor: it has the host's name,
  -- an empty domain and the listener's address.
  pub whoami-both :
      (ip : IpAddr) (rqstp : SvcReq)
      → whoami ip rqstp w
        ≡ done
            (both
              (permitted (host_of (λ h. ip == h.ip) xs))
              (search_fd rqstp.rq_xprt.xp_port w.g_listeners)
              (λ h l. record { client_name = h.name; domain_name = []; router_address = l.ip }))
            w
  unfolding whoami
  whoami-both ip rqstp = elim (first_cases (λ h. ip == h.ip) w.hosts w.g_hosts xs r.chain) [
    | inl (e1, e2) ↦ simp (ip2host-first r ip, e1, e2) (unfold whoami_host in refl)
    | inr (i, h, e1, e2, e3, e4) ↦
        simp (ip2host-first r ip, e1, e2) (whoami_host-both i h e3 rqstp.rq_xprt.xp_port)
  ]

  -- In a registry that ends, `getfile` returns and changes nothing. The answer is there exactly if the first host of the client's name may use
  -- bootparam, has a file that fits the id, and a listener has the port number of the request's
  -- transport for its descriptor. It has that file's
  -- server and path and the listener's address.
  pub getfile-both :
      (client_name file_id : Text) (rqstp : SvcReq)
      → getfile client_name file_id rqstp w
        ≡ done
            (both
              (file_for file_id (permitted (host_of (named_as client_name) xs)))
              (search_fd rqstp.rq_xprt.xp_port w.g_listeners)
              (λ f l. record {
                server_name = f.server;
                server_path = f.path;
                server_address = l.ip;
              }))
            w
  unfolding getfile
  getfile-both client_name file_id rqstp =
      elim (first_cases (named_as client_name) w.hosts w.g_hosts xs r.chain) [
        | inl (e1, e2) ↦ simp (name2host-first r client_name, e1, e2) (unfold getfile_host in refl)
        | inr (i, h, e1, e2, e3, e4) ↦
            simp (name2host-first r client_name, e1, e2)
              (getfile_host-both i h e3 file_id rqstp.rq_xprt.xp_port)
      ]
