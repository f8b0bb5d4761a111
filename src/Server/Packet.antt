-- ===== src/Server/Packet.antt =====
-- Packets as the bytes behind a pointer, and numbers in network order.
use bootd.Base.{
  ℕ, zero, suc, ◌+◌, ◌*◌, ◌/◌, ◌%◌, Option, none, some, List, [], ◌∷◌, ◌++◌, leb, if◌then◌else◌,
  length, get_elem?, take, drop, ◌≡◌, refl, ap, ◌<◌, ◌≤◌, arith, c_string, Bool-cases, inl, inr,
  ◌==◌, length-append, length-take,
}

-- `ntohs` of the 16 bits at an offset
unfoldable pub u16 : List ℕ → ℕ → Option ℕ
u16 p i = elim (get_elem? p i) [
  | none ↦ none
  | some a ↦ elim (get_elem? p (i + 1)) [ none ↦ none | some b ↦ some (a * 256 + b) ]
]

-- `n` bytes from an offset
unfoldable pub slice : List ℕ → (offset n : ℕ) → Option (List ℕ)
slice p i n = if leb (i + n) (length p) then some (take n (drop i p)) else none

-- `htons`
abbrev pub be16 : ℕ → List ℕ
be16 n = ((n / 256) % 256) ∷ (n % 256) ∷ []

unfoldable pub zeros : ℕ → List ℕ
zeros zero = []
zeros (suc n) = 0 ∷ zeros n

-- What `strncpy` of a string leaves in a field of `n` bytes
unfoldable pub strncpy_field : ℕ → List ℕ → List ℕ
unfolding zeros
strncpy_field n s = take n (s ++ zeros n)

-- The field holds the string and a 0, if it is long enough.
pub take-strncpy_field :
    (n k : ℕ) (s : List ℕ)
    → length s < n
    → 0 < k
    → take (suc (length s)) (take n (s ++ zeros k)) ≡ s ++ 0 ∷ []
unfolding zeros
take-strncpy_field zero k s h p = elim h [ ]
take-strncpy_field (suc n) zero s h p = elim p [ ]
take-strncpy_field (suc n) (suc k) [] h p = refl
take-strncpy_field (suc n) (suc k) (c ∷ s) h p =
    ap (λ t. c ∷ t) (take-strncpy_field n (suc k) s (omega arith) p)

pub c_string_total : (xs : List ℕ) → (t : List ℕ) × (c_string (xs ++ 0 ∷ []) ≡ some t)
unfolding c_string
c_string_total [] = ([], refl)
c_string_total (x ∷ xs) =
    let (t, e) = c_string_total xs in
    elim (Bool-cases (x == 0)) [ inl z ↦ ([], ground arith) | inr nz ↦ (x ∷ t, ground arith) ]

pub slice-some : (p : List ℕ) (i n : ℕ) → i + n ≤ length p → slice p i n ≡ some (take n (drop i p))
unfolding slice
slice-some p i n h = ground arith

length-zeros : (n : ℕ) → length (zeros n) ≡ n
unfolding zeros
length-zeros zero = refl
length-zeros (suc n) = ap suc (length-zeros n)

pub length-strncpy_field : (n : ℕ) (s : List ℕ) → length (strncpy_field n s) ≡ n
unfolding strncpy_field
length-strncpy_field n s =
    omega (arith, length-take n (s ++ zeros n), length-append s (zeros n), length-zeros n)
