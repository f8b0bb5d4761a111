-- ===== src/Strings/Quote/Read.antt =====
-- What `str_do_quote` writes, as the tokenizer of the configuration reads it.
use bootd.Base.{
  ℕ, ◌+◌, ◌<◌, ◌≡◌, ◌≢◌, refl, ap, ◌∙◌, true, false, some, List, [], ◌∷◌, ◌++◌, ltb, length, Text,
  arith,
}
use mathlib.Core.List.{append_assoc}
use bootd.Config.Scanner.{fresh}
use bootd.Config.Scanner.Flat.{tokens_from}
use bootd.Config.Scanner.Quoted.{NoQuote, tokens_from-quoted}
use bootd.Strings.Quote.{quoted, quote_loop, str_do_quote}

-- No 0, no double quote and no backslash among the bytes
abbrev pub Plain : Text → Type 0
Plain [] = Unit {0}
Plain (c ∷ cs) = ((c ≢ 0) × (c ≢ b'"')) × ((c ≢ b'\\') × Plain cs)

NoQuote-Plain : (t : Text) → Plain t → NoQuote t
NoQuote-Plain [] p = tt
NoQuote-Plain (c ∷ cs) p = (p.0, NoQuote-Plain cs p.1.1)

quoted-Plain : (c : ℕ) → c ≢ b'"' → c ≢ b'\\' → quoted c ≡ c ∷ []
unfolding quoted
quoted-Plain c nq nb = ground arith

quote_loop-Plain : (l d : ℕ) (t : Text) → d + length t + 1 < l → Plain t → quote_loop l d t ≡ t
unfolding quote_loop
quote_loop-Plain l d [] h p = refl
quote_loop-Plain l d (c ∷ cs) h p =
    let room : ltb (d + 2) l ≡ true = ground arith in
    let one = quoted-Plain c p.0.1 p.1.0 in
    simp (room, one, quote_loop-Plain l (d + 1) cs (omega arith) p.1.1)

-- For a text that is not empty, has less than 4096 bytes and among them no 0, double quote or
-- backslash, and a buffer with room for two quotes and a 0 more: the string that str_do_quote
-- writes is read by the tokenizer, before a blank, as one token, which is that text.
pub str_do_quote-tokens :
    (t : Text) (l line : ℕ) (rest : List ℕ)
    → t ≢ []
    → length t < 4096
    → length t + 2 < l
    → Plain t
    → (b : Text) × (n : ℕ) × (str_do_quote (some t) l ≡ some (b ++ 0 ∷ []))
      × (tokens_from (fresh line) (b ++ b' ' ∷ rest) ≡ t ∷ tokens_from (fresh n) rest)
unfolding str_do_quote
str_do_quote-tokens t l line rest ne few room p =
    let (n, e) = tokens_from-quoted t line rest ne few (NoQuote-Plain t p) in
    let short : ltb l 3 ≡ false = ground arith in
    let loop = quote_loop-Plain l 1 t (omega arith) p in
    let written : (t ++ b'"' ∷ []) ++ 0 ∷ [] ≡ t ++ b'"' ∷ 0 ∷ [] = append_assoc t _ _ in
    let before : (t ++ b'"' ∷ []) ++ b' ' ∷ rest ≡ t ++ b'"' ∷ b' ' ∷ rest = append_assoc t _ _ in
    (
      b'"' ∷ (t ++ b'"' ∷ []),
      n,
      simp (short, loop, written),
      ap (λ x. tokens_from (fresh line) (b'"' ∷ x)) before ∙ e,
    )
