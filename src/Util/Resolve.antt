-- ===== src/Util/Resolve.antt =====
-- Names for addresses and addresses for names, in src/util.c.
use bootd.Base.{
  ℕ, zero, suc, ◌-◌, Bool, true, false, not, ◌&&◌, ◌||◌, Option, none, some, [], ◌∷◌, ◌==◌, ltb,
  leb, length, if◌then◌else◌, ℤ, pos, get_elem?, Text,
}
use bootd.Server.State.{EtherAddr, IpAddr, Host}
use bootd.Server.Run.{Cmd, pure, need, fail_fault, log_err, get_world, ◌>>=◌}
use bootd.Server.System.{System, syscall}
use bootd.Util.Walk.{util_name2host, util_ether2host, util_ip2host}

unfoldable pub util_ether_valid : EtherAddr → Bool
util_ether_valid [] = false
util_ether_valid (x ∷ xs) = not (x == 0) || util_ether_valid xs

unfoldable pub util_ip_valid : IpAddr → Bool
util_ip_valid ip = not (ip == 0)

-- An `int` as a truth value
abbrev pub truth : ℤ → Bool
truth (pos zero) = false
truth (pos (suc n)) = true
truth _ = true

unfoldable pub toupper : ℕ → ℕ
toupper c = if leb b'a' c && leb c b'z' then c - 32 else c

unfoldable pub map_upper : Text → Text
map_upper [] = []
map_upper (c ∷ cs) = toupper c ∷ map_upper cs

-- What a lookup found, as the host itself
unfoldable pub found_host : Option ℕ → Cmd (Option Host)
found_host none = pure none
found_host (some p) = do w ← get_world; h ← need (get_elem? w.hosts p); pure (some h)

abbrev valid_ether : Option Host → Option EtherAddr
valid_ether none = none
valid_ether (some h) = if util_ether_valid h.eth then some h.eth else none

abbrev valid_ip : Option Host → Option IpAddr
valid_ip none = none
valid_ip (some h) = if util_ip_valid h.ip then some h.ip else none

module _ (sys : System) where
  -- The name in lower case was unknown: once more in upper case, by way of `char b[64]`.
  unfoldable pub ether_of_upper : Text → Cmd EtherAddr
  ether_of_upper name =
      if ltb (length name) 64
      then (do
        found ← syscall (λ k. sys.ether_hostton k (map_upper name))
        elim found [ none ↦ log_err | some eth ↦ pure eth ])
      else fail_fault

  -- The address, or `none` where the function returns 0.
  unfoldable pub util_name2ether : Text → Cmd (Option EtherAddr)
  util_name2ether name = elim (sys.ether_aton name) [
    | some eth ↦ pure (some eth)
    | none ↦ do
      p ← util_name2host name
      h ← found_host p
      w ← get_world
      elim (valid_ether h) [
        | some eth ↦ pure (some eth)
        | none ↦ if not (truth w.c_resolve_ether) then pure none else (do
          found ← syscall (λ k. sys.ether_hostton k name)
          elim found [
            | some eth ↦ pure (some eth)
            | none ↦ ether_of_upper name >>= (λ eth. pure (some eth))
          ])
      ]
  ]

  -- Where the name is unknown the process ends, so the function never returns 0.
  unfoldable pub util_name2ip : Text → Cmd IpAddr
  util_name2ip name = elim (sys.inet_aton name) [
    | some ip ↦ pure ip
    | none ↦ do
      p ← util_name2host name
      h ← found_host p
      w ← get_world
      elim (valid_ip h) [
        | some ip ↦ pure ip
        | none ↦ if not (truth w.c_resolve_ip) then log_err else (do
          found ← syscall (λ k. sys.gethostbyname k name)
          elim found [ none ↦ log_err | some ip ↦ pure ip ])
      ]
  ]

  unfoldable pub util_ether2name : EtherAddr → Cmd (Option Text)
  util_ether2name eth = do
    p ← util_ether2host eth
    h ← found_host p
    w ← get_world
    elim h [
      | some h ↦ pure h.name
      | none ↦
          if truth w.c_resolve_ether
          then (do
            found ← syscall (λ k. sys.ether_ntohost k eth)
            elim found [ some name ↦ pure (some name) | none ↦ pure (some (sys.ether_ntoa eth)) ])
          else pure (some (sys.ether_ntoa eth))
    ]

  unfoldable pub util_ip2name : IpAddr → Cmd (Option Text)
  util_ip2name ip = do
    p ← util_ip2host ip
    h ← found_host p
    w ← get_world
    elim h [
      | some h ↦ pure h.name
      | none ↦
          if truth w.c_resolve_ip
          then (do
            found ← syscall (λ k. sys.gethostbyaddr k ip)
            elim found [ some name ↦ pure (some name) | none ↦ pure (some (sys.inet_ntoa ip)) ])
          else pure (some (sys.inet_ntoa ip))
    ]
