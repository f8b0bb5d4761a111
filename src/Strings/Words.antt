-- ===== src/Strings/Words.antt =====
-- The words for truth values and log levels.
use bootd.Base.{
  ℕ, Bool, true, false, ◌||◌, Option, none, some, Text, codes, strcmp_eq, strcasecmp_eq,
  if◌then◌else◌,
}

unfoldable pub str_is_true : Text → Bool
str_is_true w =
    strcasecmp_eq w (codes "yes")
    || strcasecmp_eq w (codes "true")
    || strcasecmp_eq w (codes "ok")
    || strcmp_eq w (codes "1")

unfoldable pub str_is_false : Text → Bool
str_is_false w =
    strcasecmp_eq w (codes "no") || strcasecmp_eq w (codes "false") || strcmp_eq w (codes "0")

-- The new value of `*dst`, `none` where the function returns 0 and leaves it alone.
unfoldable pub str_get_bool : Option Text → Option ℕ
str_get_bool none = none
str_get_bool (some w) = if str_is_true w then some 1 else if str_is_false w then some 0 else none

-- LOG_DEBUG is 0, LOG_INFO 1, LOG_WARN 2 and LOG_ERR 3.
unfoldable pub str_get_loglevel : Option Text → Option ℕ
str_get_loglevel none = none
str_get_loglevel (some w) =
    if strcmp_eq w (codes "debug")
    then some 0
    else if strcmp_eq w (codes "info")
    then some 1
    else if strcmp_eq w (codes "warn") || strcmp_eq w (codes "warning")
    then some 2
    else if strcmp_eq w (codes "err") || strcmp_eq w (codes "error")
    then some 3
    else none

-- `str_bool` into a buffer that is long enough
unfoldable pub str_bool : Bool → Text
str_bool true = codes "true"
str_bool false = codes "false"
