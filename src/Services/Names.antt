-- ===== src/Services/Names.antt =====
-- `str_get_service` and `str_service` of src/ngenutil.c.
use bootd.Base.{
  ℕ, zero, suc, ◌+◌, ◌*◌, ◌/◌, ◌%◌, Option, none, some, List, [], ◌∷◌, ◌++◌, ltb, ◌==◌,
  if◌then◌else◌, take, bit_or, Text, codes, strcasecmp_eq,
}
use bootd.Server.State.{Service}
use bootd.Services.Ids
use bootd.Services.Table.{service_search_by_name, service_search_by_id}

abbrev or_id : ℕ → Option Service → Option ℕ
or_id old none = none
or_id old (some s) = some (bit_or old s.id)

-- The new value of `*dst`, `none` where the function returns 0 and leaves it alone.
unfoldable pub str_get_service : List Service → Text → (dst : ℕ) → Option ℕ
unfolding strcasecmp_eq service_search_by_name
str_get_service services w dst =
    if strcasecmp_eq w (codes "all")
    then some Ids.all
    else if strcasecmp_eq w (codes "none")
    then some 0
    else or_id dst (service_search_by_name w services)

unfoldable pub digits_onto : (fuel : ℕ) → ℕ → Text → Text
digits_onto zero n acc = acc
digits_onto (suc k) n acc =
    let rest = digits_onto k (n / 10) ((b'0' + n % 10) ∷ acc) in
    if ltb n 10 then (b'0' + n) ∷ acc else rest

-- `%d` of a number below 10^10
unfoldable pub decimal : ℕ → Text
unfolding digits_onto
decimal n = digits_onto 10 n []

abbrev service_word : ℕ → Option Service → Text
service_word j none = decimal j
service_word j (some s) = s.name

-- `snprintf` behind the text in `buf[512]`: what does not fit is cut off.
abbrev print_word : Text → Text → Text
print_word [] word = take 511 word
print_word buf word = take 511 (buf ++ b' ' ∷ word)

-- The loop over the 16 bits; `bit` is `1 << i`.
unfoldable pub service_loop : List Service → ℕ → (rounds bit : ℕ) → Text → Text
unfolding service_search_by_id decimal
service_loop services service zero bit buf = buf
service_loop services service (suc k) bit buf = service_loop services service k (2 * bit) (
    if (service / bit) % 2 == 1
    then print_word buf (service_word bit (service_search_by_id bit services))
    else buf)

-- `str_service`, whose callers pass a buffer of 512 bytes
unfoldable pub str_service : List Service → ℕ → Text
unfolding service_loop
str_service services service =
    if service == Ids.all then codes "all" else service_loop services service 16 1 []
