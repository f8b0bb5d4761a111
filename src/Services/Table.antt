-- ===== src/Services/Table.antt =====
-- The list `l_services` of src/service.c, kept in the order of its `next` pointers.
pub mod Found
use bootd.Base.{
  ℕ, zero, suc, ◌+◌, ◌/◌, ◌%◌, ◌^◌, Bool, false, ◌||◌, Option, none, some, List, [], ◌∷◌, ◌++◌, leb,
  ◌==◌, if◌then◌else◌, Text, codes, strcmp_eq,
}
use bootd.Server.State.{Service, dhcp_service, tftp_service}
use bootd.Services.Ids

-- `service_search_by_name` over the list
unfoldable pub service_search_by_name : Text → List Service → Option Service
service_search_by_name name [] = none
service_search_by_name name (n ∷ ns) =
    if strcmp_eq n.name name then some n else service_search_by_name name ns

-- `service_search_by_id` over the list
unfoldable pub service_search_by_id : ℕ → List Service → Option Service
service_search_by_id id [] = none
service_search_by_id id (n ∷ ns) = if n.id == id then some n else service_search_by_id id ns

-- The number of the lowest bit that is set, `rounds` if none of the first `rounds` is.
unfoldable pub lowest_bit : (rounds : ℕ) → ℕ → ℕ
lowest_bit zero x = 0
lowest_bit (suc k) x = let rest = lowest_bit k (x / 2) in if x % 2 == 1 then 0 else rest + 1

-- The test before `invalid service id`. `!1` is 0 in C, so the first half of it never holds.
unfoldable pub id_invalid : ℕ → Bool
unfolding lowest_bit
id_invalid id = leb 16 (id / 2 ^ lowest_bit 16 id)

-- Where the walk of `service_add` ends: at a service of that name, or behind the last one.
unfoldable pub name_taken : Text → List Service → Bool
unfolding strcmp_eq
name_taken name [] = false
name_taken name (n ∷ ns) = strcmp_eq n.name name || name_taken name ns

pub data Added : Type 0 where
  added : List Service → Added
  ignored : Added
  invalid_id : Added

-- `service_add`. A bad id ends the process, but is looked for only behind another service.
unfoldable pub service_add : Service → List Service → Added
unfolding name_taken id_invalid
service_add s [] = added (s ∷ [])
service_add s (n ∷ ns) =
    if name_taken s.name (n ∷ ns)
    then ignored
    else if id_invalid s.id
    then invalid_id
    else added ((n ∷ ns) ++ s ∷ [])

abbrev service_new : Text → ℕ → Service
service_new name id = record {
  name = name;
  id = id;
  devices = [];
  bindaddr = [];
  defport = 0;
  filter = [];
  service = none;
}

abbrev mop_filter : Text
mop_filter = codes "(ether dst 08:00:2b:60:01:00 || 08:00:2b:60:02:00 || 08:00:2b:90:00)"

-- The calls of `service_add` in `service_init` and `bootparam_service_init`, in their order. The
-- routines of link services are left out, as no code calls them through the service.
abbrev pub initial_services : List Service
initial_services =
    record (service_new (codes "rarp") Ids.rarp) { filter = codes "(rarp)" }
    ∷ record (service_new (codes "dhcp") Ids.dhcp) { defport = 67; service = some dhcp_service }
    ∷ record (service_new (codes "mop") Ids.mop) { filter = mop_filter }
    ∷ record (service_new (codes "rmp") Ids.rmp) { filter = codes "(ether dst 9:0:9:0:0:4)" }
    ∷ record (service_new (codes "tftp") Ids.tftp) { defport = 69; service = some tftp_service }
    ∷ service_new (codes "bootparam") Ids.bootparam
    ∷ []

abbrev and_add : Added → Service → Added
and_add (added l) s = service_add s l
and_add ignored s = ignored
and_add invalid_id s = invalid_id

add_all : Added → List Service → Added
add_all r [] = r
add_all r (s ∷ ss) = add_all (and_add r s) ss

-- `service_init` on the empty list
unfoldable pub service_init : Added
unfolding add_all service_add
service_init = add_all (added []) initial_services
