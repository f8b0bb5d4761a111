-- ===== src/Config/Scanner/Render.antt =====
-- The bytes of a file that has given tokens: every character behind a `\`, a blank behind each token.
use bootd.Base.{
  ℕ, ◌+◌, ◌<◌, ◌≡◌, ◌≢◌, refl, ap, sym, ◌∙◌, true, false, List, [], ◌∷◌, ◌++◌, if◌then◌else◌,
  length, length-append, Text, arith,
}
use mathlib.Core.List.{append_assoc, append-nil}
use bootd.Config.Scanner.{
  Scanner, fresh, more, token, step, step_char, step_plain, put, delimit, is_newline,
}
use bootd.Config.Scanner.Flat.{tokens_from, tokens-more, tokens-token}

abbrev pub escape : Text → List ℕ
escape [] = []
escape (c ∷ cs) = b'\\' ∷ c ∷ escape cs

abbrev pub render : List Text → List ℕ
render [] = []
render (t ∷ ts) = escape t ++ b' ' ∷ render ts

-- No 0 among the bytes
abbrev pub NoNul : Text → Type 0
NoNul [] = Unit {0}
NoNul (c ∷ cs) = (c ≢ 0) × NoNul cs

-- A token that the buffer of a token holds.
abbrev pub IsToken : Text → Type 0
IsToken t = (t ≢ []) × (length t < 4096) × NoNul t

abbrev pub AllTokens : List Text → Type 0
AllTokens [] = Unit {0}
AllTokens (t ∷ ts) = IsToken t × AllTokens ts

-- Amid a token
abbrev pub amid : Text → (line : ℕ) → Scanner
amid acc line = record { text = acc; esc = false; quo = 0; comment = false; line = line }

abbrev escaped : Text → (line : ℕ) → Scanner
escaped acc line = record { text = acc; esc = true; quo = 0; comment = false; line = line }

step-backslash : (acc : Text) (line : ℕ) → step (amid acc line) b'\\' ≡ more (escaped acc line)
unfolding step step_char step_plain
step-backslash acc line = refl

step-escaped :
    (acc : Text) (line c : ℕ)
    → c ≢ 0
    → length acc + 1 < 4096
    → step (escaped acc line) c
      ≡ more (amid (acc ++ c ∷ []) (if is_newline c then line + 1 else line))
unfolding step step_char put
step-escaped acc line c nz h = ground arith

pub step-blank : (acc : Text) (line : ℕ) → acc ≢ [] → step (amid acc line) b' ' ≡ token acc line
unfolding step step_char step_plain delimit
step-blank [] line h = absurd (h refl)
step-blank (c ∷ acc) line h = refl

tokens-escape :
    (t acc : Text) (line : ℕ) (rest : List ℕ)
    → acc ++ t ≢ []
    → length acc + length t < 4096
    → NoNul t
    → (l : ℕ) × (tokens_from (amid acc line) (escape t ++ b' ' ∷ rest)
        ≡ (acc ++ t) ∷ tokens_from (fresh l) rest)
tokens-escape [] acc line rest ne h nn =
    let whole : acc ++ [] ≡ acc = append-nil acc in
    let begun : acc ≢ [] = λ e. ne (whole ∙ e) in
    (line, rw whole (tokens-token (amid acc line) b' ' rest acc line (step-blank acc line begun)))
tokens-escape (c ∷ t) acc line rest ne h (nz, nn) =
    let same : (acc ++ c ∷ []) ++ t ≡ acc ++ c ∷ t = append_assoc acc (c ∷ []) t in
    let next = if is_newline c then line + 1 else line in
    let (l, e) =
      tokens-escape t (acc ++ c ∷ []) next rest (λ n. ne (sym same ∙ n))
        (omega (arith, length-append acc (c ∷ []))) nn in
    (
      l,
      tokens-more (amid acc line) (escaped acc line) b'\\' (c ∷ (escape t ++ b' ' ∷ rest))
            (step-backslash acc line)
          ∙ tokens-more (escaped acc line) (amid (acc ++ c ∷ []) next) c _
              (step-escaped acc line c nz (omega arith))
          ∙ e
          ∙ ap (λ r. r ∷ tokens_from (fresh l) rest) same,
    )

-- A list of tokens that are not empty, hold no 0 and fit the buffer is what the tokenizer finds
-- in the text that is written for it.
pub tokens_from-render :
    (ts : List Text) (line : ℕ) → AllTokens ts → tokens_from (fresh line) (render ts) ≡ ts
tokens_from-render [] line h = refl
tokens_from-render (t ∷ ts) line ((ne, fits, nn), h) =
    let (l, e) = tokens-escape t [] line (render ts) ne (omega arith) nn in
    e ∙ ap (λ r. t ∷ r) (tokens_from-render ts l h)
