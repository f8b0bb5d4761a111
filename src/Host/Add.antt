-- ===== src/Host/Add.antt =====
-- `host_new`, `host_clone` and `host_add`.
use bootd.Base.{
  ℕ, zero, suc, true, false, Option, none, some, List, [], ◌∷◌, ◌++◌, ◌==◌, leb, length,
  if◌then◌else◌, Text, codes, strcasecmp_eq,
}
use bootd.Server.State.{EtherAddr, IpAddr, File, Host, Service}
use bootd.Server.Run.{Cmd, pure, done, hang, need, get_world, ◌>>=◌, ◌>>◌}
use bootd.Server.System.{System}
use bootd.Services.Ids
use bootd.Services.Names.{str_service}
use bootd.Util.Walk.{all_rounds}
use bootd.Util.Resolve.{
  util_ether_valid, util_ip_valid, util_name2ether, util_name2ip, util_ether2name, util_ip2name,
}
use bootd.Host.Memory.{read_host, write_host}

abbrev no_ether : EtherAddr
no_ether = 0 ∷ 0 ∷ 0 ∷ 0 ∷ 0 ∷ 0 ∷ []

-- `malloc` and a copy
alloc_host : Host → Cmd ℕ
alloc_host h w = done (length w.hosts) (record w { hosts = w.hosts ++ h ∷ [] })

unfoldable pub host_new : Cmd ℕ
unfolding alloc_host
host_new = alloc_host (record {
  next = none;
  name = none;
  service = 0;
  eth = no_ether;
  ip = 0;
  files = [];
  session = none;
})

-- A file with no mask of its own has the host's.
unfoldable pub default_masks : ℕ → List File → List File
default_masks service [] = []
default_masks service (f ∷ fs) =
    (if f.service == 0 then record f { service = service } else f) ∷ default_masks service fs

alias_text : List Text → Text
alias_text [] = []
alias_text (a ∷ as') = codes " | " ++ (a ++ alias_text as')

server_text : Option Text → Text
server_text none = []
server_text (some s) = codes "\n    server " ++ s

-- What the loop appends to `files` for one file; a null path or name is read through.
file_text : List Service → File → Option Text
unfolding alias_text server_text
file_text services f = elim f.path [
  | none ↦ none
  | some path ↦ elim f.name [
    | none ↦ none
    | some name ↦ some (
        codes "\n  file "
        ++ (path
            ++ (codes "\n    name "
                ++ (name
                    ++ (alias_text f.aliases
                        ++ (server_text f.server
                            ++ (codes "\n    service " ++ str_service services f.service)))))))
  ]
]

-- The text in `char files[2048]`; `none` if it does not fit or a file has no path or name.
unfoldable pub files_text : List Service → Text → List File → Option Text
unfolding file_text
files_text services acc [] = some acc
files_text services acc (f ∷ fs) = elim (file_text services f) [
  | none ↦ none
  | some t ↦ elim (leb 2048 (length (acc ++ t))) [
    | true ↦ none
    | false ↦ files_text services (acc ++ t) fs
  ]
]

-- The walk to the end of the list; a host of that name on the way ends it.
unfoldable pub append_from : (rounds : ℕ) → (p : ℕ) → Text → (q : ℕ) → Cmd (Unit {0})
append_from zero p name q = λ w. hang
append_from (suc k) p name q = do
  n ← read_host q
  other ← need n.name
  if strcasecmp_eq name other then pure tt else elim n.next [
    | none ↦ write_host q (record n { next = some p })
    | some r ↦ append_from k p name r
  ]

unfoldable pub append_host : (p : ℕ) → Text → Cmd (Unit {0})
append_host p name = do
  w ← get_world
  elim w.g_hosts [
    | none ↦ λ v. done tt (record v { g_hosts = some p })
    | some q ↦ append_from (all_rounds w) p name q
  ]

module _ (sys : System) where
  -- The name that the host gets; `none` if it has no address either.
  unfoldable pub default_name : Host → Cmd (Option Text)
  default_name h = elim h.name [
    | some name ↦ pure (some name)
    | none ↦
        if util_ip_valid h.ip
        then (do name ← util_ip2name sys h.ip; n ← need name; pure (some n))
        else if util_ether_valid h.eth
        then (do name ← util_ether2name sys h.eth; n ← need name; pure (some n))
        else pure none
  ]

  unfoldable pub default_ip : Host → Text → Cmd IpAddr
  default_ip h name = if util_ip_valid h.ip then pure h.ip else util_name2ip sys name

  unfoldable pub default_ether : Host → Text → Cmd (Option EtherAddr)
  default_ether h name =
      if util_ether_valid h.eth then pure (some h.eth) else util_name2ether sys name

  -- Behind the defaults: the masks, the text for the log, and the list.
  unfoldable pub register : (p : ℕ) → Host → Text → Cmd (Unit {0})
  register p h name = do
    let service = if h.service == 0 then Ids.all else h.service
    let files = default_masks service h.files
    write_host p (record h { service = service; files = files })
    w ← get_world
    need (files_text w.l_services [] files)
    append_host p name

  unfoldable pub host_add : (p : ℕ) → Cmd (Unit {0})
  host_add p = do
    h ← read_host p
    named ← default_name h
    elim named [
      | none ↦ pure tt
      | some name ↦ do
        write_host p (record h { name = some name })
        ip ← default_ip h name
        write_host p (record h { name = some name; ip = ip })
        ether ← default_ether h name
        elim ether [
          | none ↦ pure tt
          | some eth ↦ register p (record h { name = some name; ip = ip; eth = eth }) name
        ]
    ]

  -- The copy of all fields takes over `next` and `session` too.
  unfoldable pub host_clone : (src : ℕ) → Option Text → Option EtherAddr → Option IpAddr → Cmd ℕ
  unfolding alloc_host
  host_clone src name ether ip = do
    h ← read_host src
    p ← alloc_host (record h {
      name = name;
      eth = elim ether [ none ↦ no_ether | some e ↦ e ];
      ip = elim ip [ none ↦ 0 | some i ↦ i ];
    })
    host_add p
    pure p
