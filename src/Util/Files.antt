-- ===== src/Util/Files.antt =====
-- `i_file_match` and `util_name2file`.
pub mod Ranked
use bootd.Base.{
  ℕ, zero, suc, Bool, true, false, not, ◌||◌, Option, none, some, List, [], ◌∷◌, ◌==◌,
  if◌then◌else◌, Text, codes, strcmp_eq,
}
use bootd.Server.State.{File, Host}
use bootd.Services.Ids.{allows}

-- `str_is_equal`, which is false at a null pointer
unfoldable pub str_is_equal : Option Text → Option Text → Bool
unfolding strcmp_eq
str_is_equal (some a) (some b) = strcmp_eq a b
str_is_equal (some a) none = false
str_is_equal none b = false

-- The loop over `aliases`
unfoldable pub alias_is : Text → List Text → Bool
alias_is name [] = false
alias_is name (a ∷ as') = strcmp_eq name a || alias_is name as'

abbrev wildcard : Text
wildcard = codes "*"

-- The rank of a match by name: 1 path, 2 name, 3 alias, 4 wildcard, 0 none.
name_match : File → Text → ℕ
unfolding str_is_equal alias_is
name_match n name =
    if str_is_equal (some name) n.path
    then 1
    else if str_is_equal (some name) n.name
    then 2
    else if alias_is name n.aliases
    then 3
    else if str_is_equal n.path (some wildcard) || str_is_equal n.name (some wildcard)
    then 4
    else if alias_is wildcard n.aliases
    then 4
    else 0

match_allowed : File → Option Text → ℕ
unfolding name_match
match_allowed n none = 1
match_allowed n (some name) = name_match n name

unfoldable pub i_file_match : File → (service : ℕ) → Option Text → ℕ
unfolding match_allowed
i_file_match n service name = if not (allows n.service service) then 0 else match_allowed n name

-- What one round of the outer loop comes to: a file, or how many matches are still to be skipped.
pub data Scan : Type 0 where
  found : File → Scan
  left : ℕ → Scan

-- The loop over the files in round `i`, with the counter `no`
unfoldable pub scan : (service : ℕ) → Option Text → (i skip : ℕ) → List File → Scan
scan service name i skip [] = left skip
scan service name i zero (n ∷ ns) = elim (i_file_match n service name == i) [
  | true ↦ found n
  | false ↦ scan service name i zero ns
]
scan service name i (suc skip) (n ∷ ns) = elim (i_file_match n service name == i) [
  | true ↦ scan service name i skip ns
  | false ↦ scan service name i (suc skip) ns
]

-- The rounds from `i`
rounds : ℕ → (i : ℕ) → (service : ℕ) → Option Text → (skip : ℕ) → List File → Option File
rounds zero i service name skip files = none
rounds (suc k) i service name skip files = elim (scan service name i skip files) [
  | found f ↦ some f
  | left skip' ↦ rounds k (suc i) service name skip' files
]

unfoldable pub util_name2file : Option Host → (service : ℕ) → Option Text → (skip : ℕ) → Option File
unfolding rounds scan i_file_match
util_name2file none service name skip = none
util_name2file (some h) service name skip = rounds 4 1 service name skip h.files
