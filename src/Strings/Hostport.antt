-- ===== src/Strings/Hostport.antt =====
-- `str_get_hostport` of src/str.c.
pub mod Parts
use bootd.Base.{
  ℕ, zero, suc, Bool, true, false, ◌||◌, Option, none, some, [], ◌∷◌, ◌==◌, leb, ltb, if◌then◌else◌,
  length, Text, codes, strcmp_eq,
}
use bootd.Server.State.{IpAddr}
use bootd.Config.Values.Numbers.{starts_digit, digits}

-- `fault`: the copy of the text in `char host[256]` has no 0.
pub data Split : Type 0 where
  split : (host port : Text) → Split
  refused : Split
  fault : Split

unfoldable pub has_char : ℕ → Text → Bool
has_char c [] = false
has_char c (x ∷ xs) = x == c || has_char c xs

-- What stands before the first `:`, and behind it, if there is one
unfoldable pub at_colon : Text → Text × Text
at_colon [] = ([], [])
at_colon (c ∷ cs) = let rest = at_colon cs in if c == b':' then ([], cs) else (c ∷ rest.0, rest.1)

-- `*` stands for any host or port, which is the empty text.
abbrev pub unstarred : Text → Text
unstarred t = if strcmp_eq t (codes "*") then [] else t

-- A host without a port is kept as it is, a `*` too.
abbrev pub host_part : Text → Text
host_part w = if has_char b':' w then unstarred (at_colon w).0 else w

abbrev pub port_part : Text → Text
port_part w = unstarred (at_colon w).1

-- A port that begins with a digit: a number up to 65535, where 0 is the empty text.
unfoldable pub number_port : Text → ℕ × Text → Option Text
number_port port (n, []) = if ltb 65535 n then none else if n == 0 then some [] else some port
number_port port (n, c ∷ cs) = none

unfoldable pub checked_port : Text → Option Text
unfolding number_port digits
checked_port port = if starts_digit port then number_port port (digits 0 port) else some port

abbrev pub with_port : Text → Option Text → Split
with_port host none = refused
with_port host (some port) = split host port

module _ (inet_aton : Text → Option IpAddr) where
  -- A host that begins with a digit: the test reads the whole text, with its port.
  unfoldable pub host_ok : Text → Text → Bool
  host_ok w host =
      if starts_digit host then elim (inet_aton w) [ none ↦ false | some ip ↦ true ] else true

  unfoldable pub str_get_hostport : Text → Split
  unfolding has_char at_colon checked_port host_ok
  str_get_hostport w =
      if has_char b' ' w
      then refused
      else if leb 256 (length w)
      then fault
      else if host_ok w (host_part w)
      then with_port (host_part w) (checked_port (port_part w))
      else refused
