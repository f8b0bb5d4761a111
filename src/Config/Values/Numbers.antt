-- ===== src/Config/Values/Numbers.antt =====
-- `str_get_int` of src/str.c: a decimal number by `strtol`, cut to an `int`.
use bootd.Base.{
  ℕ, ◌+◌, ◌-◌, ◌*◌, ◌%◌, Bool, true, false, ◌&&◌, ◌||◌, Option, none, some, [], ◌∷◌, ◌==◌, leb, ltb,
  if◌then◌else◌, min, Text, ℤ, pos, negsuc,
}

unfoldable pub is_space : ℕ → Bool
is_space c = c == b' ' || (leb 9 c && leb c 13)

abbrev pub is_digit : ℕ → Bool
is_digit c = leb b'0' c && leb c b'9'

-- The value of the digits in front, behind those read so far, and the rest of the text
unfoldable pub digits : ℕ → Text → ℕ × Text
digits acc [] = (acc, [])
digits acc (c ∷ cs) =
    let rest = digits (10 * acc + (c - b'0')) cs in if is_digit c then rest else (acc, c ∷ cs)

-- The cast of the `long` with this absolute value to an `int` of 32 bits
unfoldable pub to_int : ℕ → ℤ
to_int n =
    let low = n % 0x100000000 in if ltb low 0x80000000 then pos low else negsuc (0xffffffff - low)

-- `strtol` at a number that is not negative stops at LONG_MAX, at a negative one at LONG_MIN; a
-- negative number is cast as its two's complement.
unfoldable pub signed : (negative : Bool) → ℕ → ℤ
unfolding to_int
signed false n = to_int (min n 0x7fffffffffffffff)
signed true n = to_int (0x10000000000000000 - min n 0x8000000000000000)

abbrev pub starts_digit : Text → Bool
starts_digit [] = false
starts_digit (c ∷ cs) = is_digit c

abbrev pub whole : (negative : Bool) → ℕ × Text → Option ℤ
whole negative (n, []) = some (signed negative n)
whole negative (n, c ∷ cs) = none

-- Behind the sign: a number that ends the text
unfoldable pub unsigned : (negative : Bool) → Text → Option ℤ
unfolding digits signed
unsigned negative w = if starts_digit w then whole negative (digits 0 w) else none

unfoldable pub after_space : Text → Option ℤ
unfolding unsigned
after_space [] = none
after_space (c ∷ cs) =
    if c == b'-'
    then unsigned true cs
    else if c == b'+'
    then unsigned false cs
    else unsigned false (c ∷ cs)

unfoldable pub skip_space : Text → Option ℤ
unfolding after_space is_space
skip_space [] = none
skip_space (c ∷ cs) = let rest = skip_space cs in if is_space c then rest else after_space (c ∷ cs)

-- `none` where the function returns 0; its callers end the process then. The empty text is read
-- as 0, as `strtol` stops at its front and its end at once.
unfoldable pub str_get_int : Text → Option ℤ
unfolding skip_space
str_get_int [] = some (pos 0)
str_get_int (c ∷ cs) = skip_space (c ∷ cs)
