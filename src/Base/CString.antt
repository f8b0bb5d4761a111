-- ===== src/Base/CString.antt =====
-- C strings, as the list of their bytes before the terminating 0, and libc's comparisons of them.
use Prim.Native.Char.{code}
use Prim.Native.String.{String}
use Prim.Native.Nat.{ℕ, ◌+◌}
use mathlib.Core.Bool.{Bool, true, false, ◌&&◌}
use mathlib.Core.List.{List, [], ◌∷◌}
use mathlib.Core.Path.{◌≡◌, refl}
use mathlib.Core.Option.{Option, none, some}
use native.Mathlib.Omega.{arith}
use bootd.Base.Tests.{leb, ◌==◌, if◌then◌else◌}

abbrev pub Text : Type 0
Text = List ℕ

-- The bytes of an ASCII literal.
abbrev pub codes : String → Text
codes String.[] = []
codes (String.◌∷◌ c s) = code c ∷ codes s

-- `strcmp(a, b) == 0`
unfoldable pub strcmp_eq : Text → Text → Bool
strcmp_eq [] [] = true
strcmp_eq (x ∷ xs) (y ∷ ys) = x == y && strcmp_eq xs ys
strcmp_eq _ _ = false

unfoldable pub tolower : ℕ → ℕ
tolower c = if leb b'A' c && leb c b'Z' then c + 32 else c

-- `strcasecmp(a, b) == 0`, in the C locale
unfoldable pub strcasecmp_eq : Text → Text → Bool
unfolding tolower
strcasecmp_eq [] [] = true
strcasecmp_eq (x ∷ xs) (y ∷ ys) = tolower x == tolower y && strcasecmp_eq xs ys
strcasecmp_eq _ _ = false

-- The string that starts at the front of a buffer: its bytes before the first 0. `none` if the
-- buffer holds no 0.
unfoldable pub c_string : List ℕ → Option Text
c_string [] = none
c_string (c ∷ cs) =
    let rest = c_string cs in
    if c == 0 then some [] else elim rest [ none ↦ none | some s ↦ some (c ∷ s) ]

pub strcmp_eq_refl : (a : Text) → strcmp_eq a a ≡ true
unfolding strcmp_eq
strcmp_eq_refl [] = refl
strcmp_eq_refl (x ∷ xs) = ground (arith, strcmp_eq_refl xs)

pub strcmp_eq→eq : (a b : Text) → strcmp_eq a b ≡ true → a ≡ b
unfolding strcmp_eq
strcmp_eq→eq [] [] h = refl
strcmp_eq→eq [] (y ∷ ys) h = cc
strcmp_eq→eq (x ∷ xs) [] h = cc
strcmp_eq→eq (x ∷ xs) (y ∷ ys) h = ground (arith, strcmp_eq→eq xs ys)

pub strcasecmp_eq_refl : (a : Text) → strcasecmp_eq a a ≡ true
unfolding strcasecmp_eq
strcasecmp_eq_refl [] = refl
strcasecmp_eq_refl (x ∷ xs) = ground (arith, strcasecmp_eq_refl xs)
