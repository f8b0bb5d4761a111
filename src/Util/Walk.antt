-- ===== src/Util/Walk.antt =====
-- The walks over `g_hosts`: `util_name2host`, `util_ether2host` and `util_ip2host`.
pub mod Found
use bootd.Base.{
  ℕ, zero, suc, Bool, true, false, Option, none, some, ◌==◌, length, get_elem?, Text, strcmp_eq,
  strcasecmp_eq,
}
use bootd.Server.State.{EtherAddr, IpAddr, Host, World}
use bootd.Server.Run.{Cmd, done, fault, hang}

-- The walk from `p` along `next` to the first host that passes the test; a test may itself read
-- through a null pointer. With one round more than there are hosts, a walk that runs out of rounds
-- has come to some host twice, and never ends.
unfoldable pub walk : (Host → Option Bool) → (rounds : ℕ) → Option ℕ → Cmd (Option ℕ)
walk test zero p w = hang
walk test (suc k) none w = done none w
walk test (suc k) (some p) w = elim (get_elem? w.hosts p) [
  | none ↦ fault
  | some h ↦ elim (test h) [
    | none ↦ fault
    | some b ↦ elim b [ true ↦ done (some p) w | false ↦ walk test k h.next w ]
  ]
]

abbrev pub all_rounds : World → ℕ
all_rounds w = suc (length w.hosts)

unfoldable pub has_name : Text → Host → Option Bool
has_name name h = elim h.name [ none ↦ none | some n ↦ some (strcasecmp_eq name n) ]

-- `memcmp` of the six octets
unfoldable pub has_ether : EtherAddr → Host → Option Bool
has_ether eth h = some (strcmp_eq h.eth eth)

unfoldable pub has_ip : IpAddr → Host → Option Bool
has_ip ip h = some (ip == h.ip)

unfoldable pub util_name2host : Text → Cmd (Option ℕ)
util_name2host name w = walk (has_name name) (all_rounds w) w.g_hosts w

unfoldable pub util_ether2host : EtherAddr → Cmd (Option ℕ)
util_ether2host eth w = walk (has_ether eth) (all_rounds w) w.g_hosts w

unfoldable pub util_ip2host : IpAddr → Cmd (Option ℕ)
util_ip2host ip w = walk (has_ip ip) (all_rounds w) w.g_hosts w
