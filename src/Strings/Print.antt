-- ===== src/Strings/Print.antt =====
-- The functions of src/str.c that print a value into a buffer `dst` of `l` bytes: the bytes that are
-- written to it. A null `dst` is only warned of.
pub mod Sai
use bootd.Base.{
  ℕ, zero, suc, ◌-◌, Bool, true, false, Option, none, some, List, [], ◌∷◌, ◌++◌, ◌==◌,
  if◌then◌else◌, take, Text, codes,
}
use bootd.Server.State.{EtherAddr, IpAddr, SockAddr}
use bootd.Server.Packet.{strncpy_field}
use bootd.Services.Names.{decimal}

-- `snprintf` of a text: at most `l - 1` bytes and a 0, nothing where `l` is 0
unfoldable pub snprintf : (l : ℕ) → Text → List ℕ
snprintf zero t = []
snprintf (suc n) t = take n t ++ 0 ∷ []

unfoldable pub str_eth : (ether_ntoa : EtherAddr → Text) → Option EtherAddr → (l : ℕ) → List ℕ
unfolding strncpy_field
str_eth ether_ntoa none l = strncpy_field l (codes "00:00:00:00:00:00")
str_eth ether_ntoa (some eth) l = strncpy_field l (ether_ntoa eth)

unfoldable pub str_ip : (inet_ntoa : IpAddr → Text) → Option IpAddr → (l : ℕ) → List ℕ
unfolding strncpy_field
str_ip inet_ntoa none l = strncpy_field l (codes "0.0.0.0")
str_ip inet_ntoa (some ip) l = strncpy_field l (inet_ntoa ip)

-- The `switch` of `str_dlt`, with the numbers of libpcap
abbrev dlt_name : (dlt : ℕ) → Text
dlt_name dlt =
    if dlt == 0
    then codes "no link-layer encapsulation"
    else if dlt == 1
    then codes "Ethernet"
    else if dlt == 2
    then codes "experimental Ethernet (3Mb)"
    else if dlt == 3
    then codes "Amateur Radio AX.25"
    else if dlt == 4
    then codes "Proteon ProNET Token Ring"
    else if dlt == 5
    then codes "Chaos"
    else if dlt == 6
    then codes "IEEE 802 Networks"
    else if dlt == 7
    then codes "ARCNET"
    else if dlt == 8
    then codes "Serial Line IP"
    else if dlt == 9
    then codes "Point-to-point Protocol"
    else if dlt == 10
    then codes "FDDI"
    else if dlt == 11
    then codes "LLC/SNAP encapsulated atm"
    else if dlt == 12
    then codes "raw IP"
    else codes "unknown datalink type"

unfoldable pub str_dlt : (dlt l : ℕ) → List ℕ
unfolding strncpy_field
str_dlt dlt l = strncpy_field l (dlt_name dlt)

-- The families that `str_af` asks for; which of them there are, and their numbers, is the system's.
pub data Family : Type 0 where
  af_unspec af_local af_inet af_implink af_pup af_chaos af_ns af_iso af_ecma af_ccitt af_sna :
      Family
  af_decnet af_dli af_lat af_appletalk af_link af_ipx af_isdn af_inet6 af_natm af_atm : Family
  af_slow af_scluster : Family

-- The cases of the `switch`: the family, its name, and whether a `break` follows
abbrev pub family_names : List (Family × Text × Bool)
family_names =
    (af_unspec, codes "unspecified", true)
    ∷ (af_local, codes "local unix/pipe/portal", true)
    ∷ (af_inet, codes "inet", true)
    ∷ (af_implink, codes "arpanet imp", true)
    ∷ (af_pup, codes "PUP", true)
    ∷ (af_chaos, codes "MIT CHAOS", true)
    ∷ (af_ns, codes "Xerox NS", true)
    ∷ (af_iso, codes "ISO", true)
    ∷ (af_ecma, codes "ECMA", false)
    ∷ (af_ccitt, codes "CCITT x.25", true)
    ∷ (af_sna, codes "SNA", true)
    ∷ (af_decnet, codes "DECnet", true)
    ∷ (af_dli, codes "DEC dli", true)
    ∷ (af_lat, codes "LAT", true)
    ∷ (af_appletalk, codes "Apple Talk", true)
    ∷ (af_link, codes "Link Layer Interface", true)
    ∷ (af_ipx, codes "IPX", true)
    ∷ (af_isdn, codes "ISDN", true)
    ∷ (af_inet6, codes "IPv6", true)
    ∷ (af_natm, codes "native ATM", true)
    ∷ (af_atm, codes "ATM", true)
    ∷ (af_slow, codes "802.3ad slow protocol", true)
    ∷ (af_scluster, codes "Sitara cluster protocol", true)
    ∷ []

module _ (number : Family → Option ℕ) where
  -- The text behind a case that falls through: that of the next case there is
  next_name : List (Family × Text × Bool) → Text
  next_name [] = codes "unknown protocol"
  next_name ((f, t, breaks) ∷ rest) = elim (number f) [
    | none ↦ next_name rest
    | some n ↦ if breaks then t else next_name rest
  ]

  abbrev name_of_case : Text → Bool → Text → Text
  name_of_case t true next = t
  name_of_case t false next = next

  family_name : (af : ℕ) → List (Family × Text × Bool) → Text
  unfolding next_name
  family_name af [] = codes "unknown protocol"
  family_name af ((f, t, breaks) ∷ rest) = elim (number f) [
    | none ↦ family_name af rest
    | some n ↦
        let others = family_name af rest in
        if n == af then name_of_case t breaks (next_name rest) else others
  ]

  unfoldable pub str_af : (af l : ℕ) → List ℕ
  unfolding strncpy_field family_name
  str_af af l = strncpy_field l (family_name af family_names)

-- An address and a port: `*` for an address or a port that is 0
unfoldable pub str_sai : (inet_ntoa : IpAddr → Text) → Option SockAddr → (l : ℕ) → List ℕ
unfolding strncpy_field snprintf decimal
str_sai inet_ntoa none l = strncpy_field l (codes "*:*")
str_sai inet_ntoa (some sai) l =
    if sai.addr == 0
    then (if sai.port == 0
        then strncpy_field l (codes "*:*")
        else snprintf l (codes "*:" ++ decimal sai.port))
    else if sai.port == 0
    then snprintf l (inet_ntoa sai.addr ++ codes ":*")
    else snprintf l (inet_ntoa sai.addr ++ b':' ∷ decimal sai.port)
