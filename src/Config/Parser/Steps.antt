-- ===== src/Config/Parser/Steps.antt =====
-- What the steps of the parser do, where the tokens are known and the tables have room.
pub mod Tables
pub mod Words
use bootd.Base.{
  ℕ, zero, suc, ◌+◌, ◌-◌, ◌*◌, ◌≤◌, ◌<◌, ◌≡◌, refl, ◌⊎◌, inl, inr, Option, none, some, List, [],
  ◌∷◌, ◌++◌, length, take, Text, c_string, arith,
}
use bootd.Server.Packet.{strncpy_field, zeros}
use bootd.Config.Scanner.Render.{NoNul}
use bootd.Config.Tokenizer.Queue.{Holds}
use bootd.Config.Parser.{
  Parser, Parsed, done, exited, fault, hang, no_fuel, Parse, pure, and_then, ◌>>=◌, string_add,
  next_word, with_nul, Kind, delimiter, separator, value, kind_of, read_values, or_last,
}

-- A string that a buffer of `PARSE_STRING_MAX` bytes holds with its 0.
abbrev pub Short : Text → Type 0
Short t = NoNul t × (length t < 256)

abbrev pub field : Text → List ℕ
field t = strncpy_field 256 t

c_string-zeros :
    (t : Text) (n k : ℕ)
    → NoNul t
    → length t < n
    → 0 < k
    → c_string (take n (t ++ zeros k)) ≡ some t
unfolding c_string zeros
c_string-zeros t zero k h l pos = absurd (omega arith)
c_string-zeros t (suc n) zero h l pos = absurd (omega arith)
c_string-zeros [] (suc n) (suc k) h l pos = refl
c_string-zeros (c ∷ t) (suc n) (suc k) (nz, h) l pos = ground (arith, c_string-zeros t n (suc k) h)

pub c_string-field : (t : Text) → Short t → c_string (field t) ≡ some t
unfolding strncpy_field
c_string-field t (h, l) = c_string-zeros t 256 256 h l (omega arith)

pub c_string-with_nul : (t : Text) → NoNul t → c_string (with_nul t) ≡ some t
unfolding c_string
c_string-with_nul [] h = refl
c_string-with_nul (c ∷ t) (nz, h) = ground (arith, c_string-with_nul t h)

-- How many strings or entries the tables still take.
abbrev pub free_strings : Option (List Text) → ℕ
free_strings none = 0
free_strings (some xs) = 256 - length xs

abbrev pub free_entries : Option ℕ → ℕ
free_entries none = 0
free_entries (some n) = 256 - n

abbrev pub room : Parser → ℕ
room p = (256 - p.tables) * 256 + free_strings p.strings + free_entries p.entries

-- The tokens to come, at least this much room in the tables, and tables within their bounds.
pub record Ready (p : Parser) (ts : List Text) (k : ℕ) : Type 0 where
  pub queue : Holds p.tokens ts
  pub space : k ≤ room p
  pub name : Short p.fname
  pub tables : p.tables ≤ 256

pub Ready-less : {p : Parser} {ts : List Text} {k : ℕ} (j : ℕ) → Ready p ts k → j ≤ k → Ready p ts j
Ready-less j h le = record {
  queue = h.queue;
  space = omega (arith, h.space);
  name = h.name;
  tables = h.tables;
}

-- The call returns `a` and leaves a parser that is ready.
pub record Gives {A : Type 0} (a : A) (ts : List Text) (k : ℕ) (r : Parsed A) : Type 0 where
  pub left : Parser
  pub is : r ≡ done a left
  pub ready : Ready left ts k

pub returns :
    {A : Type 0} {a : A} {ts : List Text} {k : ℕ} {p : Parser}
    → Ready p ts k
    → Gives a ts k (done a p)
returns {p = p} h = record { left = p; is = refl; ready = h }

module _ {A B : Type 0} {a : A} {b : B} {ts us : List Text} {j k : ℕ} where
  pub Gives-bind :
      (r : Parsed A) (f : A → Parse B)
      → Gives a ts j r
      → ((p : Parser) → Ready p ts j → Gives b us k (f a p))
      → Gives b us k (and_then r f)
  Gives-bind r f h next = rw h.is (next h.left h.ready)

module _ {A B C : Type 0} {a : A} {b : B} {ts us : List Text} {j k : ℕ} where
  -- Two calls whose results are known together
  pub Gives-both :
      (r : Parsed C) (g : C → Parse A) (f : A → Parse B)
      → Gives a ts j (and_then r g)
      → ((p : Parser) → Ready p ts j → Gives b us k (f a p))
      → Gives b us k (and_then r (λ c. g c >>= f))
  Gives-both (done c p) g f h next = Gives-bind (g c p) f h next
  Gives-both exited g f h next = cc
  Gives-both fault g f h next = cc
  Gives-both hang g f h next = cc
  Gives-both no_fuel g f h next = cc

pub Kind-cases : (k : Kind) → (k ≡ delimiter) ⊎ ((k ≡ separator) ⊎ (k ≡ value))
Kind-cases delimiter = inl refl
Kind-cases separator = inr (inl refl)
Kind-cases value = inr (inr refl)

pub read_values-delimiter :
    (r : ℕ) (w : List ℕ) (p : Parser) → kind_of w ≡ delimiter → read_values r w p ≡ done ([], w) p
unfolding read_values
read_values-delimiter zero w p e = ground arith
read_values-delimiter (suc r) w p e = ground arith

pub read_values-value :
    (r : ℕ) (w : List ℕ) (p : Parser)
    → kind_of w ≡ value
    → read_values (suc r) w p
      ≡ and_then
          (string_add w p)
          (λ v. next_word >>= λ b. read_values r (or_last w b) >>= λ x. pure (v ∷ x.0, x.1))
unfolding read_values
read_values-value r w p e = ground arith

pub read_values-separator :
    (r : ℕ) (w : List ℕ) (p : Parser) → kind_of w ≡ separator → read_values r w p ≡ hang
unfolding read_values
read_values-separator zero w p e = ground arith
read_values-separator (suc r) w p e = ground arith

pub read_values-full : (w : List ℕ) (p : Parser) → kind_of w ≡ value → read_values 0 w p ≡ exited
unfolding read_values
read_values-full w p e = ground arith
