-- ===== src/Config/Parser.antt =====
-- The parser of src/parse.c. The line and the file name of an entry are used for messages only and
-- left out; that the name of the file goes to the table of strings is kept.
pub mod Steps
pub mod Printed
pub mod Ends
pub mod Errors
use bootd.Base.{
  ℕ, zero, suc, ◌+◌, Bool, false, ◌||◌, Option, none, some, List, [], ◌∷◌, ◌++◌, ◌==◌, leb, ltb,
  if◌then◌else◌, length, Text, codes, strcmp_eq, c_string,
}
use bootd.Config.Scanner.{Reads}
use bootd.Config.Tokenizer.{Tokenizer, tokenize_new, tokenize_next, Word, word, ended, failed, hung}

-- `PARSE_STRING_MAX`, `PARSE_VALUES_MAX` and the sizes of the tables
abbrev pub string_max : ℕ
string_max = 256

abbrev pub values_max : ℕ
values_max = 32

abbrev pub tbl_size : ℕ
tbl_size = 256

-- `parse_entry_t`: `end` is a null pointer, `unset` the pointer `result` that was never written.
pub data Entries : Type 0 where
  end : Entries
  unset : Entries
  entry :
      (name : Text)
      → (values : List Text) → (sub : Entries) → (processed : Bool) → (next : Entries) → Entries

-- The tokenizer and the tables: `l_tbl_string` with the strings it holds and `l_tbl_entry_next`,
-- `none` before the first allocation, and `l_tbl_table_next`.
pub record Parser : Type 0 where
  pub tokens : Tokenizer
  pub fname : Text
  pub strings : Option (List Text)
  pub entries : Option ℕ
  pub tables : ℕ

-- `exited`: an error was logged. `fault`: a string without a 0 was read. `hang`: a loop that never
-- ends. `no_fuel`: the bound on the depth of calls was too small.
pub data Parsed {ℓ} (A : Type ℓ) : Type ℓ where
  done : A → Parser → Parsed A
  exited : Parsed A
  fault : Parsed A
  hang : Parsed A
  no_fuel : Parsed A

abbrev pub Parse {ℓ} : Type ℓ → Type ℓ
Parse A = Parser → Parsed A

abbrev pub pure {ℓ} : {A : Type ℓ} → A → Parse A
pure = done

module _ {ℓ κ} {A : Type ℓ} {B : Type κ} where
  abbrev pub and_then : Parsed A → (A → Parse B) → Parsed B
  and_then (done a p) k = k a p
  and_then exited k = exited
  and_then fault k = fault
  and_then hang k = hang
  and_then no_fuel k = no_fuel

  infixl 5 ◌>>=◌
  abbrev pub ◌>>=◌ : Parse A → (A → Parse B) → Parse B
  m >>= k = λ p. and_then (m p) k

infixl 5 ◌>>◌
abbrev pub ◌>>◌ {ℓ κ} : {A : Type ℓ} {B : Type κ} → Parse A → Parse B → Parse B
m >> k = m >>= λ _. k

-- The strings of the current table, behind the allocation of one where it is missing or full
abbrev has_room : Option (List Text) → Bool
has_room none = false
has_room (some xs) = ltb (length xs) tbl_size

abbrev pub current : Option (List Text) → List Text
current none = []
current (some xs) = xs

unfoldable pub string_table : Parse (Unit {0})
string_table p =
    if has_room p.strings
    then done tt p
    else if p.tables == tbl_size
    then exited
    else done tt (record p { strings = some []; tables = p.tables + 1 })

abbrev pub mem : Text → List Text → Bool
mem s [] = false
mem s (x ∷ xs) = strcmp_eq s x || mem s xs

unfoldable pub string_put : Text → Parse Text
string_put s p =
    if leb string_max (length s)
    then exited
    else if mem s (current p.strings)
    then done s p
    else done s (record p { strings = some (current p.strings ++ s ∷ []) })

-- `parse_string_add` of the string in a buffer
unfoldable pub string_add : (buf : List ℕ) → Parse Text
unfolding string_table string_put
string_add buf = do
  string_table
  elim (c_string buf) [ none ↦ (λ p. fault) | some s ↦ string_put s ]

-- How many entries of the current table are in use, `none` where there is no room in it.
unfoldable in_use : Option ℕ → Option ℕ
in_use none = none
in_use (some n) = if n == tbl_size then none else some n

-- `parse_entry_new`
unfoldable pub entry_new : Parse (Unit {0})
unfolding in_use
entry_new p = elim (in_use p.entries) [
  | some n ↦ done tt (record p { entries = some (n + 1) })
  | none ↦
      if p.tables == tbl_size
      then exited
      else done tt (record p { entries = some 1; tables = p.tables + 1 })
]

-- `gen_tokenize_next(tokenize, sizeof(w), w)`: `none` for 0
abbrev pub word_of : Word → Parse (Option (List ℕ))
word_of (word b z) p = done (some b) (record p { tokens = z })
word_of (ended z) p = done none (record p { tokens = z })
word_of failed p = exited
word_of hung p = hang

unfoldable pub next_word : Parse (Option (List ℕ))
next_word p = word_of (tokenize_next p.tokens string_max) p

-- `w` keeps what it held where there is no word.
abbrev pub or_last : List ℕ → Option (List ℕ) → List ℕ
or_last w none = w
or_last w (some b) = b

-- `str_is_equal(w, "…")`; a buffer without a 0 differs from each of the short strings.
abbrev pub is_word : List ℕ → Text → Bool
is_word buf s = elim (c_string buf) [ none ↦ false | some t ↦ strcmp_eq t s ]

-- What a word is to the loop over the values
pub data Kind : Type 0 where
  delimiter : Kind
  separator : Kind
  value : Kind

unfoldable pub kind_of : List ℕ → Kind
kind_of w =
    if is_word w (codes "{") || is_word w (codes ";")
    then delimiter
    else if is_word w (codes ",") || is_word w (codes "|")
    then separator
    else value

-- The values of an entry, and the word behind them; `room` is how many more may come. The loop
-- reads no word behind a separator and so never leaves it.
unfoldable pub read_values : (room : ℕ) → (w : List ℕ) → Parse (List Text × List ℕ)
unfolding string_add next_word
read_values zero w = elim (kind_of w) [
  | delimiter ↦ pure ([], w)
  | separator ↦ (λ p. hang)
  | value ↦ (λ p. exited)
]
read_values (suc r) w = elim (kind_of w) [
  | delimiter ↦ pure ([], w)
  | separator ↦ (λ p. hang)
  | value ↦ (do
    v ← string_add w
    b ← next_word
    x ← read_values r (or_last w b)
    pure (v ∷ x.0, x.1))
]

-- What stands in `fname`, as a buffer
abbrev pub with_nul : Text → List ℕ
with_nul s = s ++ 0 ∷ []

unfoldable pub name_of_file : Parse Text
unfolding string_add
name_of_file p = string_add (with_nul p.fname) p

-- The block behind the values of an entry, where there is one; `sub` stands for `parse_sub`.
unfoldable pub parse_block : (sub : Entries → Parse Entries) → (w : List ℕ) → Parse Entries
parse_block sub w = if is_word w (codes "{") then sub unset else pure end

-- The entry that a word begins, and those behind it
unfoldable pub parse_entry : (sub : Entries → Parse Entries) → (w : List ℕ) → Parse Entries
unfolding entry_new string_add name_of_file next_word read_values parse_block
parse_entry sub w = do
  entry_new
  name ← string_add w
  name_of_file
  b ← next_word
  x ← read_values values_max (or_last w b)
  block ← parse_block sub x.1
  next ← sub end
  pure (entry name x.0 block false next)

unfoldable pub parse_word :
    (sub : Entries → Parse Entries) → (none_yet : Entries) → Option (List ℕ) → Parse Entries
unfolding parse_entry
parse_word sub none_yet none = pure none_yet
parse_word sub none_yet (some w) =
    if is_word w (codes "}") then pure none_yet else parse_entry sub w

-- `parse_sub`: `none_yet` is what the pointer to the next entry holds before it is written.
unfoldable pub parse_sub : (fuel : ℕ) → (none_yet : Entries) → Parse Entries
unfolding next_word parse_word
parse_sub zero none_yet p = no_fuel
parse_sub (suc n) none_yet p = and_then (next_word p) (parse_word (parse_sub n) none_yet)

-- `parse_file` of a file that was opened
abbrev pub parse_new : (fname : Text) → Reads → Parser
parse_new fname reads = record {
  tokens = tokenize_new reads;
  fname = fname;
  strings = none;
  entries = none;
  tables = 0;
}

unfoldable pub parse_file : (fuel : ℕ) → (fname : Text) → Reads → Parsed Entries
unfolding parse_sub
parse_file fuel fname reads = parse_sub fuel unset (parse_new fname reads)
