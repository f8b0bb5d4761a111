-- ===== src/Config/Scanner.antt =====
-- The loop of `gen_tokenize_tokenize` over the characters of one token. Columns are left out, as no
-- code reads them.
pub mod Flat
pub mod Render
pub mod Quoted
use bootd.Base.{
  ℕ, ◌+◌, Bool, true, false, ◌&&◌, ◌||◌, Option, none, some, List, [], ◌∷◌, ◌++◌, ◌==◌, leb,
  if◌then◌else◌, length, Text,
}

-- `t` and `tok->b` as the text so far, the flags, and `tokenize->y`. `quo` is 0, 1 or 2.
pub record Scanner : Type 0 where
  pub text : Text
  pub esc : Bool
  pub quo : ℕ
  pub comment : Bool
  pub line : ℕ

abbrev pub fresh : (line : ℕ) → Scanner
fresh line = record { text = []; esc = false; quo = 0; comment = false; line = line }

-- What one character leads to: `token` ends one, `again` ends one and leaves the character unread.
pub data Outcome : Type 0 where
  more : Scanner → Outcome
  token : Text → (line : ℕ) → Outcome
  again : Text → (line : ℕ) → Outcome

abbrev pub bufsize : ℕ
bufsize = 4096

-- `tok->b[t++] = c`; the loop ends where the buffer is full.
unfoldable pub put : Scanner → ℕ → Outcome
put s c =
    if leb bufsize (length s.text + 1)
    then token (s.text ++ c ∷ []) s.line
    else more (record s { text = s.text ++ c ∷ [] })

-- The end of a token, where one was begun
unfoldable pub delimit : Scanner → Text → Outcome
delimit s [] = more s
delimit s (x ∷ xs) = token (x ∷ xs) s.line

unfoldable pub semicolon : Scanner → Text → Outcome
semicolon s [] = token (b';' ∷ []) s.line
semicolon s (x ∷ xs) = again (x ∷ xs) s.line

abbrev pub is_newline : ℕ → Bool
is_newline c = c == 10 || c == 13

-- The switch
unfoldable pub step_plain : Scanner → ℕ → Outcome
unfolding put delimit semicolon
step_plain s c =
    if c == b'\\'
    then more (record s { esc = true })
    else if c == b'"'
    then more (record s { quo = 2 })
    else if c == b'\''
    then more (record s { quo = 1 })
    else if is_newline c || c == b' ' || c == 9
    then delimit s s.text
    else if c == b'#'
    then more (record s { comment = true })
    else if c == b';'
    then semicolon s s.text
    else put s c

-- Outside of a comment
unfoldable pub step_char : Scanner → ℕ → Outcome
unfolding put delimit step_plain
step_char s c =
    if c == 0
    then delimit s s.text
    else if s.esc
    then put (record s { esc = false }) c
    else if (s.quo == 2) && (c == b'"')
    then more (record s { quo = 0 })
    else if (s.quo == 1) && (c == b'\'')
    then more (record s { quo = 0 })
    else if s.quo == 0
    then step_plain s c
    else put s c

unfoldable pub step : Scanner → ℕ → Outcome
unfolding step_char
step s c =
    if s.comment
    then (if is_newline c then more (record s { comment = false; line = s.line + 1 }) else more s)
    else if is_newline c
    then step_char (record s { line = s.line + 1 }) c
    else step_char s c

-- What a buffer comes to: a token and the bytes behind it, or the state at its end.
pub data Scanned : Type 0 where
  found : Text → (line : ℕ) → (buf : List ℕ) → Scanned
  starved : Scanner → Scanned

-- The bytes in `tokenize->b` from `s` to `e`
unfoldable pub scan_buf : Scanner → List ℕ → Scanned
scan_buf s [] = starved s
scan_buf s (c ∷ cs) = elim (step s c) [
  | more s' ↦ scan_buf s' cs
  | token t line ↦ found t line cs
  | again t line ↦ found t line (c ∷ cs)
]

-- The results of the reads still to come: `none` is a failure, behind the last one the file has
-- ended.
abbrev pub Reads : Type 0
Reads = List (Option (List ℕ))

pub data TokenRead : Type 0 where
  got : Text → (line : ℕ) → (buf : List ℕ) → Reads → TokenRead
  at_eof : (line : ℕ) → Reads → TokenRead
  read_failed : TokenRead

-- `gen_tokenize_read` where the buffer is used up. What was scanned is lost at the end of the file.
unfoldable pub refill : Scanned → Reads → TokenRead
unfolding scan_buf
refill (found t line buf) reads = got t line buf reads
refill (starved s) [] = at_eof s.line []
refill (starved s) (none ∷ reads) = read_failed
refill (starved s) (some [] ∷ reads) = at_eof s.line reads
refill (starved s) (some (b ∷ bs) ∷ reads) = refill (scan_buf s (b ∷ bs)) reads

unfoldable pub read_token : (line : ℕ) → (buf : List ℕ) → Reads → TokenRead
unfolding scan_buf refill
read_token line buf reads = refill (scan_buf (fresh line) buf) reads
