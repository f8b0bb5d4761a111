-- ===== src/Config/Tokenizer.antt =====
-- The tokenizer of src/tokenize.c: a ring of tokens in front of the file.
pub mod Queue
use bootd.Base.{
  ℕ, zero, suc, ◌+◌, ◌-◌, ◌%◌, Bool, true, false, Option, none, some, List, [], ◌∷◌, ◌==◌, leb, ltb,
  if◌then◌else◌, get_elem?, set, Text, strcmp_eq, c_string,
}
use bootd.Server.Packet.{strncpy_field}
use bootd.Config.Scanner.{Reads, got, at_eof, read_failed, read_token}

-- `ts` is none for -1. `line` is `y`, `buf` what stands in `b` from `s` to `e`, and `reads` stands
-- for the file. `overruns` counts the writes beyond the buffer of a token: behind its loop each
-- token gets a 0 at an index of at least `TOKENIZE_BUFSIZE`.
pub record Tokenizer : Type 0 where
  pub buf : List ℕ
  pub reads : Reads
  pub line : ℕ
  pub ts : Option ℕ
  pub te : ℕ
  pub tokens : List Text
  pub overruns : ℕ

-- `gen_tokenize_new` of a file that was opened
abbrev pub tokenize_new : Reads → Tokenizer
tokenize_new reads = record {
  buf = [];
  reads = reads;
  line = 0;
  ts = none;
  te = 0;
  tokens = [] ∷ [] ∷ [] ∷ [] ∷ [] ∷ [];
  overruns = 0;
}

-- `TOKENIZE_LOOKAHEAD`
abbrev pub lookahead : ℕ
lookahead = 4

-- `if ((++n) > TOKENIZE_LOOKAHEAD) n = 0;`
abbrev pub next_slot : ℕ → ℕ
next_slot n = if ltb lookahead (n + 1) then 0 else n + 1

abbrev pub first_slot : Option ℕ → ℕ
first_slot none = 0
first_slot (some i) = i

-- The test of the loop: `ts == te`
abbrev pub is_full : Option ℕ → ℕ → Bool
is_full none te = false
is_full (some ts) te = ts == te

-- A token that was read goes to the ring.
unfoldable pub accept : Tokenizer → Text → (line : ℕ) → (buf : List ℕ) → Reads → Tokenizer
accept z t line buf reads = record {
  buf = buf;
  reads = reads;
  line = line;
  ts = some (first_slot z.ts);
  te = next_slot z.te;
  tokens = set z.tokens z.te t;
  overruns = z.overruns + 1;
}

-- What the loop of `gen_tokenize_tokenize` comes to: it returns, the process ends, or it goes on.
pub data Filled : Type 0 where
  filled : Tokenizer → Filled
  fill_failed : Filled
  unfinished : Filled

-- `n` rounds of the loop
unfoldable pub fill : (n : ℕ) → Tokenizer → Filled
unfolding accept
fill zero z = if is_full z.ts z.te then filled z else unfinished
fill (suc n) z = elim (is_full z.ts z.te) [
  | true ↦ filled z
  | false ↦ elim (read_token z.line z.buf z.reads) [
    | got t line buf reads ↦ fill n (accept z t line buf reads)
    | at_eof line reads ↦ filled (record z { buf = []; reads = reads; line = line })
    | read_failed ↦ fill_failed
  ]
]

-- The ring has room for five tokens.
abbrev pub fill_rounds : ℕ
fill_rounds = 5

pub data Word : Type 0 where
  word : List ℕ → Tokenizer → Word
  ended : Tokenizer → Word
  failed : Word
  hung : Word

abbrev text_at : List Text → ℕ → Text
text_at tokens i = elim (get_elem? tokens i) [ none ↦ [] | some t ↦ t ]

-- How far ahead `gen_tokenize_ahead` looks
abbrev ahead_max : (ts te : ℕ) → ℕ
ahead_max ts te = if leb te ts then te + lookahead - ts else te - ts

-- Behind the fill: the `n`-th token, copied to a buffer of `l` bytes by `strncpy`
unfoldable pub look : Tokenizer → Option ℕ → (n l : ℕ) → Word
look z none n l = ended z
look z (some ts) n l =
    if ltb (ahead_max ts z.te) n
    then ended z
    else word (strncpy_field l (text_at z.tokens ((n + ts) % (lookahead + 1)))) z

unfoldable pub ahead_of : Filled → (n l : ℕ) → Word
unfolding look
ahead_of (filled z) n l = look z z.ts n l
ahead_of fill_failed n l = failed
ahead_of unfinished n l = hung

unfoldable pub tokenize_ahead : Tokenizer → (n l : ℕ) → Word
unfolding fill ahead_of
tokenize_ahead z n l = ahead_of (fill fill_rounds z) n l

-- `ts` behind a token that was taken
abbrev start_behind : (ts te : ℕ) → Option ℕ
start_behind ts te = if next_slot ts == te then none else some (next_slot ts)

unfoldable pub take_word : Word → Word
take_word (word b z) = word b (record z { ts = start_behind (first_slot z.ts) z.te })
take_word (ended z) = ended z
take_word failed = failed
take_word hung = hung

unfoldable pub tokenize_next : Tokenizer → (l : ℕ) → Word
unfolding tokenize_ahead take_word
tokenize_next z l = take_word (tokenize_ahead z 0 l)

-- The end of the file is an error.
abbrev got_word : Word → Word
got_word (word b z) = word b z
got_word (ended z) = failed
got_word failed = failed
got_word hung = hung

unfoldable pub tokenize_get : Tokenizer → (l : ℕ) → Word
unfolding tokenize_next
tokenize_get z l = got_word (tokenize_next z l)

abbrev is_expected : Text → Option Text → Bool
is_expected w none = false
is_expected w (some t) = strcmp_eq t w

-- A buffer without a 0 differs from the word, which is shorter than the buffer of 4096 bytes.
abbrev expected_word : Text → Word → Word
expected_word w (word b z) = if is_expected w (c_string b) then word b z else failed
expected_word w (ended z) = ended z
expected_word w failed = failed
expected_word w hung = hung

unfoldable pub tokenize_expect : Tokenizer → (w : Text) → Word
unfolding tokenize_get c_string strcmp_eq
tokenize_expect z w = expected_word w (tokenize_get z 4096)
