-- ===== src/Strings/Print/Sai.antt =====
-- `str_sai` within its buffer.
use bootd.Base.{
  ℕ, suc, zero, ◌+◌, ◌≤◌, ◌<◌, ◌≡◌, refl, ap, Option, none, some, List, [], ◌∷◌, ◌++◌, ◌==◌,
  if◌then◌else◌, take, length, Text, codes, arith, Bool-cases, inl, inr, length-append,
}
use bootd.Server.State.{IpAddr, SockAddr}
use bootd.Server.Packet.{strncpy_field, take-strncpy_field, length-strncpy_field}
use bootd.Services.Names.{decimal, digits_onto}
use bootd.Strings.Print.{snprintf, str_sai}

-- The text of a port, `*` for 0
abbrev sai_port : (port : ℕ) → Text
sai_port port = if port == 0 then codes "*" else decimal port

-- The text of a socket address, which `*:*` stands for where there is none
abbrev pub sai_text : (inet_ntoa : IpAddr → Text) → Option SockAddr → Text
sai_text inet_ntoa none = codes "*:*"
sai_text inet_ntoa (some sai) =
    (if sai.addr == 0 then codes "*" else inet_ntoa sai.addr) ++ b':' ∷ sai_port sai.port

-- A buffer of `l` bytes holds a text with its 0.
pub record HoldsText (l : ℕ) (t : Text) (bytes : List ℕ) : Type 0 where
  pub text : take (suc (length t)) bytes ≡ t ++ 0 ∷ []
  pub within : length bytes ≤ l

length-decimal : (n : ℕ) → n < 65536 → length (decimal n) ≤ 5
unfolding decimal digits_onto
length-decimal n h = ground arith

take-of_le {ℓ} : {A : Type ℓ} (n : ℕ) (xs : List A) → length xs ≤ n → take n xs ≡ xs
take-of_le zero [] h = refl
take-of_le zero (x ∷ xs) h = absurd (omega arith)
take-of_le (suc n) [] h = refl
take-of_le (suc n) (x ∷ xs) h = ap (λ t. x ∷ t) (take-of_le n xs (omega arith))

HoldsText-strncpy : (l : ℕ) (t : Text) → length t < l → HoldsText l t (strncpy_field l t)
unfolding strncpy_field
HoldsText-strncpy l t h = record {
  text = take-strncpy_field l l t h (omega arith);
  within = omega (arith, length-strncpy_field l t);
}

HoldsText-snprintf : (l : ℕ) (t : Text) → length t < l → HoldsText l t (snprintf l t)
unfolding snprintf
HoldsText-snprintf zero t h = elim h [ ]
HoldsText-snprintf (suc n) t h =
    let whole : take n t ≡ t = take-of_le n t (omega arith) in
    let size : length (t ++ 0 ∷ []) ≡ length t + 1 = length-append t (0 ∷ []) in
    simp whole (record {
      text = take-of_le (suc (length t)) (t ++ 0 ∷ []) (omega (arith, size));
      within = omega (arith, size);
    })

-- Where the system's text of an address has at most 15 bytes, the port is below 2^16 and the buffer
-- has at least 22 bytes, str_sai writes the whole text of the address and the port with its 0, and
-- stays within the buffer.
pub str_sai-HoldsText :
    (inet_ntoa : IpAddr → Text) (sai : Option SockAddr) (l : ℕ)
    → ((ip : IpAddr) → length (inet_ntoa ip) ≤ 15)
    → ((s : SockAddr) → sai ≡ some s → s.port < 65536)
    → 22 ≤ l
    → HoldsText l (sai_text inet_ntoa sai) (str_sai inet_ntoa sai l)
unfolding str_sai
str_sai-HoldsText inet_ntoa none l short p h = HoldsText-strncpy l (codes "*:*") (omega arith)
str_sai-HoldsText inet_ntoa (some s) l short p h =
    let few = length-decimal s.port (p s refl) in
    let n = short s.addr in
    let ip = inet_ntoa s.addr in
    elim (Bool-cases (s.addr == 0)) [
      | inl a ↦ elim (Bool-cases (s.port == 0)) [
        | inl b ↦ simp (a, b) (HoldsText-strncpy l (codes "*:*") (omega arith))
        | inr b ↦ simp (a, b) (HoldsText-snprintf l (codes "*:" ++ decimal s.port) (omega arith))
      ]
      | inr a ↦ elim (Bool-cases (s.port == 0)) [
        | inl b ↦
            let size = length-append ip (codes ":*") in
            simp (a, b) (HoldsText-snprintf l (ip ++ codes ":*") (omega arith))
        | inr b ↦
            let size = length-append ip (b':' ∷ decimal s.port) in
            simp (a, b) (HoldsText-snprintf l (ip ++ b':' ∷ decimal s.port) (omega arith))
      ]
    ]
