-- ===== src/Config/Scanner/Flat.antt =====
-- A reference for the tokens of a file, over its bytes.
use bootd.Base.{ℕ, ◌≡◌, refl, ◌∙◌, none, some, List, [], ◌∷◌, ◌++◌, Text, codes, arith}
use bootd.Config.Scanner.{
  Scanner, fresh, Outcome, more, token, again, step, step_char, step_plain, semicolon, put, delimit,
  Scanned, found, starved, scan_buf, Reads, TokenRead, got, at_eof, read_failed, refill, read_token,
}

-- The tokens of a text; one that the text does not end is dropped.
abbrev pub tokens_from : Scanner → List ℕ → List Text
tokens_from s [] = []
tokens_from s (c ∷ cs) = elim (step s c) [
  | more s' ↦ tokens_from s' cs
  | token t line ↦ t ∷ tokens_from (fresh line) cs
  | again t line ↦ t ∷ (codes ";" ∷ tokens_from (fresh line) cs)
]

-- Only a `;` is left unread, and it is a token of its own.
again-semicolon : (s : Scanner) (c : ℕ) (t : Text) (line : ℕ) → step s c ≡ again t line → c ≡ b';'
unfolding step step_char step_plain semicolon put delimit
again-semicolon s c t line e = ground arith

step-semicolon : (line : ℕ) → step (fresh line) b';' ≡ token (codes ";") line
unfolding step step_char step_plain semicolon
step-semicolon line = refl

-- What the scan of a buffer says of the tokens of a text that begins with it.
abbrev ReadsOn : Scanner → List ℕ → (rest : List ℕ) → Scanned → Type 0
ReadsOn s buf rest (found t line left) =
    tokens_from s (buf ++ rest) ≡ t ∷ tokens_from (fresh line) (left ++ rest)
ReadsOn s buf rest (starved s') = tokens_from s (buf ++ rest) ≡ tokens_from s' rest

pub tokens-more :
    (s s' : Scanner) (c : ℕ) (cs : List ℕ)
    → step s c ≡ more s'
    → tokens_from s (c ∷ cs) ≡ tokens_from s' cs
tokens-more s s' c cs e = ground arith

pub tokens-token :
    (s : Scanner) (c : ℕ) (cs : List ℕ) (t : Text) (line : ℕ)
    → step s c ≡ token t line
    → tokens_from s (c ∷ cs) ≡ t ∷ tokens_from (fresh line) cs
tokens-token s c cs t line e = ground arith

tokens-again :
    (s : Scanner) (c : ℕ) (cs : List ℕ) (t : Text) (line : ℕ)
    → step s c ≡ again t line
    → tokens_from s (c ∷ cs) ≡ t ∷ tokens_from (fresh line) (c ∷ cs)
tokens-again s c cs t line e =
    let is : c ≡ b';' = again-semicolon s c t line e in
    let own : step (fresh line) c ≡ token (codes ";") line = rw is (step-semicolon line) in
    ground (arith, tokens-token (fresh line) c cs (codes ";") line)

ReadsOn-more :
    (s s' : Scanner) (c : ℕ) (cs rest : List ℕ) (r : Scanned)
    → step s c ≡ more s'
    → ReadsOn s' cs rest r
    → ReadsOn s (c ∷ cs) rest r
ReadsOn-more s s' c cs rest (found t line left) e h = tokens-more s s' c (cs ++ rest) e ∙ h
ReadsOn-more s s' c cs rest (starved s'') e h = tokens-more s s' c (cs ++ rest) e ∙ h

-- The scan of a buffer, by what its first character leads to.
abbrev after_step : ℕ → List ℕ → Outcome → Scanned
after_step c cs (more s') = scan_buf s' cs
after_step c cs (token t line) = found t line cs
after_step c cs (again t line) = found t line (c ∷ cs)

scan_buf-step :
    (s : Scanner) (c : ℕ) (cs : List ℕ) → scan_buf s (c ∷ cs) ≡ after_step c cs (step s c)
unfolding scan_buf
scan_buf-step s c cs = ground arith

outcome-ReadsOn :
    (s : Scanner) (c : ℕ) (cs rest : List ℕ) (o : Outcome)
    → step s c ≡ o
    → ((s' : Scanner) → ReadsOn s' cs rest (scan_buf s' cs))
    → ReadsOn s (c ∷ cs) rest (after_step c cs o)
outcome-ReadsOn s c cs rest (more s') e ih = ReadsOn-more s s' c cs rest (scan_buf s' cs) e (ih s')
outcome-ReadsOn s c cs rest (token t line) e ih = tokens-token s c (cs ++ rest) t line e
outcome-ReadsOn s c cs rest (again t line) e ih = tokens-again s c (cs ++ rest) t line e

scan_buf-ReadsOn : (s : Scanner) (buf rest : List ℕ) → ReadsOn s buf rest (scan_buf s buf)
scan_buf-ReadsOn s [] rest = unfold scan_buf in refl
scan_buf-ReadsOn s (c ∷ cs) rest =
    rw (scan_buf-step s c cs)
      (outcome-ReadsOn s c cs rest (step s c) refl (λ s'. scan_buf-ReadsOn s' cs rest))

-- Each read to come delivers something, up to the end of the file.
abbrev pub Steady : Reads → Type 0
Steady [] = Unit {0}
Steady (none ∷ reads) = ⊥
Steady (some [] ∷ reads) = ⊥
Steady (some (b ∷ bs) ∷ reads) = Steady reads

abbrev pub all_bytes : Reads → List ℕ
all_bytes [] = []
all_bytes (none ∷ reads) = all_bytes reads
all_bytes (some bs ∷ reads) = bs ++ all_bytes reads

-- What the read of a token says of all tokens that the file still has.
abbrev pub TokenOf : List Text → TokenRead → Type 0
TokenOf ts (got t line buf reads) =
    Steady reads × (ts ≡ t ∷ tokens_from (fresh line) (buf ++ all_bytes reads))
TokenOf ts (at_eof line reads) = (reads ≡ []) × (ts ≡ [])
TokenOf ts read_failed = ⊥

refill-TokenOf :
    (s : Scanner) (buf : List ℕ) (reads : Reads)
    → Steady reads
    → (r : Scanned) → ReadsOn s buf (all_bytes reads) r
    → TokenOf (tokens_from s (buf ++ all_bytes reads)) (refill r reads)
unfolding refill
refill-TokenOf s buf reads ok (found t line left) h = (ok, h)
refill-TokenOf s buf [] ok (starved s') h = (refl, h)
refill-TokenOf s buf (none ∷ reads) ok (starved s') h = absurd ok
refill-TokenOf s buf (some [] ∷ reads) ok (starved s') h = absurd ok
refill-TokenOf s buf (some (b ∷ bs) ∷ reads) ok (starved s') h = rw h (
    refill-TokenOf s' (b ∷ bs) reads ok (scan_buf s' (b ∷ bs))
      (scan_buf-ReadsOn s' (b ∷ bs) (all_bytes reads)))

-- Where each read delivers something, the read of a token delivers the first of the tokens that
-- the bytes of the file have, and leaves the others, however the reads divide the file. At the end
-- of the file there is no token left.
pub read_token-TokenOf :
    (line : ℕ) (buf : List ℕ) (reads : Reads)
    → Steady reads
    → TokenOf (tokens_from (fresh line) (buf ++ all_bytes reads)) (read_token line buf reads)
unfolding read_token
read_token-TokenOf line buf reads ok =
    refill-TokenOf (fresh line) buf reads ok (scan_buf (fresh line) buf)
      (scan_buf-ReadsOn (fresh line) buf (all_bytes reads))
