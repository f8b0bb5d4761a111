-- ===== src/Config/Scanner/Quoted.antt =====
-- A text between double quotes, as the tokenizer reads it.
use bootd.Base.{
  ℕ, ◌+◌, ◌<◌, ◌≡◌, ◌≢◌, refl, ap, sym, ◌∙◌, false, List, [], ◌∷◌, ◌++◌, if◌then◌else◌, length,
  length-append, Text, arith,
}
use mathlib.Core.List.{append_assoc, append-nil}
use bootd.Config.Scanner.{Scanner, fresh, more, step, step_char, step_plain, put, is_newline}
use bootd.Config.Scanner.Flat.{tokens_from, tokens-more, tokens-token}
use bootd.Config.Scanner.Render.{amid, step-blank}

-- No 0 and no double quote among the bytes
abbrev pub NoQuote : Text → Type 0
NoQuote [] = Unit {0}
NoQuote (c ∷ cs) = ((c ≢ 0) × (c ≢ b'"')) × NoQuote cs

-- Within double quotes
abbrev inside : Text → (line : ℕ) → Scanner
inside acc line = record { text = acc; esc = false; quo = 2; comment = false; line = line }

step-open : (line : ℕ) → step (fresh line) b'"' ≡ more (inside [] line)
unfolding step step_char step_plain
step-open line = refl

step-close : (acc : Text) (line : ℕ) → step (inside acc line) b'"' ≡ more (amid acc line)
unfolding step step_char
step-close acc line = refl

step-inside :
    (acc : Text) (line c : ℕ)
    → c ≢ 0
    → c ≢ b'"'
    → length acc + 1 < 4096
    → step (inside acc line) c
      ≡ more (inside (acc ++ c ∷ []) (if is_newline c then line + 1 else line))
unfolding step step_char put
step-inside acc line c nz nq h = ground arith

tokens-inside :
    (t acc : Text) (line : ℕ) (rest : List ℕ)
    → acc ++ t ≢ []
    → length acc + length t < 4096
    → NoQuote t
    → (l : ℕ) × (tokens_from (inside acc line) (t ++ b'"' ∷ b' ' ∷ rest)
        ≡ (acc ++ t) ∷ tokens_from (fresh l) rest)
tokens-inside [] acc line rest ne h nn =
    let whole : acc ++ [] ≡ acc = append-nil acc in
    let begun : acc ≢ [] = λ e. ne (whole ∙ e) in
    (
      line,
      rw whole (
          tokens-more (inside acc line) (amid acc line) b'"' (b' ' ∷ rest) (step-close acc line)
          ∙ tokens-token (amid acc line) b' ' rest acc line (step-blank acc line begun)),
    )
tokens-inside (c ∷ t) acc line rest ne h ((nz, nq), nn) =
    let same : (acc ++ c ∷ []) ++ t ≡ acc ++ c ∷ t = append_assoc acc (c ∷ []) t in
    let next = if is_newline c then line + 1 else line in
    let (l, e) =
      tokens-inside t (acc ++ c ∷ []) next rest (λ n. ne (sym same ∙ n))
        (omega (arith, length-append acc (c ∷ []))) nn in
    (
      l,
      tokens-more (inside acc line) (inside (acc ++ c ∷ []) next) c (t ++ b'"' ∷ b' ' ∷ rest)
            (step-inside acc line c nz nq (omega arith))
          ∙ e
          ∙ ap (λ r. r ∷ tokens_from (fresh l) rest) same,
    )

-- A text that is not empty, holds no 0 and no double quote and fits the buffer, between double
-- quotes and before a blank, is a token.
pub tokens_from-quoted :
    (t : Text) (line : ℕ) (rest : List ℕ)
    → t ≢ []
    → length t < 4096
    → NoQuote t
    → (l : ℕ) × (tokens_from (fresh line) (b'"' ∷ (t ++ b'"' ∷ b' ' ∷ rest))
        ≡ t ∷ tokens_from (fresh l) rest)
tokens_from-quoted t line rest ne h nn =
    let (l, e) = tokens-inside t [] line rest ne (omega arith) nn in
    (l, tokens-more (fresh line) (inside [] line) b'"' _ (step-open line) ∙ e)
