-- ===== src/Strings/Quote.antt =====
-- `str_do_quote`, and what its result reads as.
pub mod Read
use bootd.Base.{
  ℕ, suc, ◌+◌, ◌*◌, ◌≤◌, ◌<◌, ◌≡◌, refl, ap, Bool, true, false, ◌||◌, Option, none, some, [], ◌∷◌,
  ◌++◌, ◌==◌, ltb, if◌then◌else◌, length, take, Text, arith, inl, inr, Bool-cases, length-append,
}

-- What one round of the loop writes for a character.
unfoldable pub quoted : ℕ → Text
quoted c = if c == b'"' || c == b'\\' then b'\\' ∷ c ∷ [] else c ∷ []

-- The loop, with `d` the number of bytes written so far
unfoldable pub quote_loop : (l d : ℕ) → Text → Text
quote_loop l d [] = []
quote_loop l d (c ∷ cs) =
    let rest = quote_loop l (d + length (quoted c)) cs in
    if ltb (d + 2) l then quoted c ++ rest else []

-- The bytes that go to `dst` with the 0 at their end, `none` where nothing is written.
unfoldable pub str_do_quote : Option Text → (l : ℕ) → Option Text
str_do_quote w l = if ltb l 3 then none else elim w [
  | none ↦ some (b'"' ∷ b'"' ∷ 0 ∷ [])
  | some t ↦ some (b'"' ∷ (quote_loop l 1 t ++ b'"' ∷ 0 ∷ []))
]

abbrev onto : ℕ → Option Text → Option Text
onto c none = none
onto c (some t) = some (c ∷ t)

-- The text that stands before the closing quote; `escaped` is behind a backslash.
abbrev unquote_from : (escaped : Bool) → Text → Option Text
unquote_from escaped [] = none
unquote_from true (c ∷ cs) = onto c (unquote_from false cs)
unquote_from false (c ∷ cs) =
    let plain = unquote_from false cs in
    let next = unquote_from true cs in
    if c == b'"' then some [] else if c == b'\\' then next else onto c plain

-- The text between the quotes; `none` if they do not stand there.
abbrev pub unquote : Text → Option Text
unquote [] = none
unquote (c ∷ cs) = if c == b'"' then unquote_from false cs else none

length-quoted : (c : ℕ) → length (quoted c) ≤ 2
unfolding quoted
length-quoted c = ground arith

length-quote_loop : (l d : ℕ) (t : Text) → d + 1 ≤ l → d + length (quote_loop l d t) + 1 ≤ l
unfolding quote_loop
length-quote_loop l d [] h = omega arith
length-quote_loop l d (c ∷ cs) h = elim (Bool-cases (ltb (d + 2) l)) [
  | inr full ↦ ground arith
  | inl room ↦
      let n = length (quoted c) in
      let few = length-quoted c in
      let lt : d + 2 < l = ground arith in
      let ih = length-quote_loop l (d + n) cs (omega arith) in
      let e = length-append (quoted c) (quote_loop l (d + n) cs) in simp room (omega arith)
]

unquote-quoted :
    (c : ℕ) (rest : Text) → unquote_from false (quoted c ++ rest) ≡ onto c (unquote_from false rest)
unfolding quoted
unquote-quoted c rest = ground arith

abbrev closing : Text
closing = b'"' ∷ 0 ∷ []

append_closing : (xs ys : Text) → (xs ++ ys) ++ closing ≡ xs ++ (ys ++ closing)
append_closing [] ys = refl
append_closing (x ∷ xs) ys = ap (λ t. x ∷ t) (append_closing xs ys)

unquote-step :
    (c : ℕ) (rest t : Text)
    → unquote_from false (rest ++ closing) ≡ some t
    → unquote_from false ((quoted c ++ rest) ++ closing) ≡ some (c ∷ t)
unquote-step c rest t e =
    rw (append_closing (quoted c) rest, unquote-quoted c (rest ++ closing), e) refl

quote_loop-part :
    (l d : ℕ) (t : Text)
    → (n : ℕ) × (unquote_from false (quote_loop l d t ++ closing) ≡ some (take n t))
unfolding quote_loop
quote_loop-part l d [] = (0, refl)
quote_loop-part l d (c ∷ cs) = elim (Bool-cases (ltb (d + 2) l)) [
  | inr full ↦ (0, simp full)
  | inl room ↦
      let (n, e) = quote_loop-part l (d + length (quoted c)) cs in
      (suc n, simp (room, unquote-step c (quote_loop l (d + length (quoted c)) cs) (take n cs) e))
]

quote_loop-all :
    (l d : ℕ) (t : Text)
    → d + 2 * length t + 1 ≤ l
    → unquote_from false (quote_loop l d t ++ closing) ≡ some t
unfolding quote_loop
quote_loop-all l d [] h = refl
quote_loop-all l d (c ∷ cs) h =
    let few = length-quoted c in
    let room : ltb (d + 2) l ≡ true = ground arith in
    let ih = quote_loop-all l (d + length (quoted c)) cs (omega arith) in
    simp (room, unquote-step c (quote_loop l (d + length (quoted c)) cs) cs ih)

-- Into a buffer of at least 3 bytes `str_do_quote` writes a quoted text that reads as the front of
-- its argument. It writes at most one byte more than the buffer has.
pub str_do_quote-front :
    (t : Text) (l : ℕ)
    → 3 ≤ l
    → (b : Text) × (n : ℕ) × (str_do_quote (some t) l ≡ some b)
      × (unquote b ≡ some (take n t))
      × (length b ≤ l + 1)
unfolding str_do_quote
str_do_quote-front t l h =
    let (n, e) = quote_loop-part l 1 t in
    let short : ltb l 3 ≡ false = ground arith in
    let few = length-quote_loop l 1 t (omega arith) in
    let size = length-append (quote_loop l 1 t) closing in
    (b'"' ∷ (quote_loop l 1 t ++ closing), n, simp short, e, omega arith)

-- Where the buffer has at least 3 bytes and room for each character to be escaped, the quoted text
-- reads as the argument.
pub str_do_quote-unquote :
    (t : Text) (l : ℕ)
    → 3 ≤ l
    → 2 * length t + 2 ≤ l
    → (b : Text) × (str_do_quote (some t) l ≡ some b) × (unquote b ≡ some t)
unfolding str_do_quote
str_do_quote-unquote t l h room =
    let short : ltb l 3 ≡ false = ground arith in
    (b'"' ∷ (quote_loop l 1 t ++ closing), simp short, quote_loop-all l 1 t (omega arith))
