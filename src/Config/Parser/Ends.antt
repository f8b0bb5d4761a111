-- ===== src/Config/Parser/Ends.antt =====
-- What the calls of the parser leave of the queue of tokens.
use bootd.Base.{
  ℕ, zero, suc, ◌≤◌, ◌<◌, ◌≡◌, ◌≢◌, inl, inr, Bool, true, false, Bool-cases, Option-cases, Option,
  none, some, List, [], ◌==◌, leb, if◌then◌else◌, length, Text, codes, c_string, arith,
}
use bootd.Config.Scanner.{fresh, Reads}
use bootd.Config.Scanner.Flat.{tokens_from, Steady, all_bytes}
use bootd.Config.Tokenizer.{Word, word, ended, failed, hung, tokenize_next}
use bootd.Config.Tokenizer.Queue.{Holds}
use bootd.Config.Tokenizer.Queue.Next.{WordOf, tokenize_next-WordOf, tokenize_new-Holds}
use bootd.Config.Parser.Steps.{
  Kind-cases, read_values-delimiter, read_values-separator, read_values-value, read_values-full,
}
use bootd.Config.Parser.Steps.Tables.{entry_new-in_use, entry_new-table}
use bootd.Config.Parser.{
  Entries, end, unset, values_max, Parser, Parsed, done, exited, fault, hang, no_fuel, Parse,
  and_then, has_room, current, string_table, string_put, string_add, mem, in_use, entry_new,
  word_of, next_word, or_last, name_of_file, is_word, kind_of, read_values, parse_block,
  parse_entry, parse_word, parse_sub, parse_new, parse_file,
}

-- At most `n` tokens are to come.
pub record Left (p : Parser) (n : ℕ) : Type 0 where
  pub tokens : List Text
  pub queue : Holds p.tokens tokens
  pub few : length tokens ≤ n

Left-less : {p : Parser} {n : ℕ} (m : ℕ) → Left p n → n ≤ m → Left p m
Left-less m h le = record { tokens = h.tokens; queue = h.queue; few = omega (arith, h.few) }

-- The call comes to something, and leaves at most `n` tokens where it returns.
abbrev Ends : {A : Type 0} → (n : ℕ) → Parsed A → Type 0
Ends n (done a p) = Left p n
Ends n exited = Unit {0}
Ends n fault = Unit {0}
Ends n hang = Unit {0}
Ends n no_fuel = ⊥

module _ {A B : Type 0} (n m : ℕ) where
  Ends-bind :
      (r : Parsed A) (f : A → Parse B)
      → Ends n r
      → ((a : A) (p : Parser) → Left p n → Ends m (f a p))
      → Ends m (and_then r f)
  Ends-bind (done a p) f h next = next a p h
  Ends-bind exited f h next = tt
  Ends-bind fault f h next = tt
  Ends-bind hang f h next = tt
  Ends-bind no_fuel f h next = absurd h

entry_new-full :
    (p : Parser) → in_use p.entries ≡ none → (p.tables == 256) ≡ true → entry_new p ≡ exited
unfolding entry_new in_use
entry_new-full p e t = ground arith

module _ (n : ℕ) (p : Parser) (h : Left p n) where
  Ends-if :
      {A : Type 0} (b : Bool) (r s : Parsed A) → Ends n r → Ends n s → Ends n (if b then r else s)
  Ends-if true r s hr hs = hr
  Ends-if false r s hr hs = hs

  string_table-Ends : Ends n (string_table p)
  unfolding string_table
  string_table-Ends = Ends-if (has_room p.strings) _ _ h (
      Ends-if (p.tables == 256) _ _ tt (record { tokens = h.tokens; queue = h.queue; few = h.few }))

  string_put-Ends : (s : Text) → Ends n (string_put s p)
  unfolding string_put
  string_put-Ends s = Ends-if (leb 256 (length s)) _ _ tt (
      Ends-if (mem s (current p.strings)) _ _ h
        (record { tokens = h.tokens; queue = h.queue; few = h.few }))

  entry_new-Ends : Ends n (entry_new p)
  entry_new-Ends = elim (Option-cases (in_use p.entries)) [
    | inl e ↦ elim (Bool-cases (p.tables == 256)) [
      | inl t ↦ rw (entry_new-full p e t) tt
      | inr t ↦
          rw (entry_new-table p e t) (record { tokens = h.tokens; queue = h.queue; few = h.few })
    ]
    | inr (i, e) ↦
        rw (entry_new-in_use p i e) (record { tokens = h.tokens; queue = h.queue; few = h.few })
  ]

string_add-Ends : (n : ℕ) (p : Parser) → Left p n → (buf : List ℕ) → Ends n (string_add buf p)
unfolding string_add
string_add-Ends n p h buf = Ends-bind n n (string_table p) _ (string_table-Ends n p h) (λ _ p' h'.
    elim (Option-cases (c_string buf)) [
      | inl e ↦ rw e tt
      | inr (s, e) ↦ rw e (string_put-Ends n p' h' s)
    ])

-- A word is taken from the queue, where there is one.
module _ {A : Type 0} (n m : ℕ) (f : Option (List ℕ) → Parse A) (p : Parser) where
  word_of-Ends :
      (ts : List Text) (r : Word)
      → length ts ≤ n
      → WordOf 256 ts r
      → ((b : List ℕ) (p : Parser) (k : ℕ) → suc k ≤ n → Left p k → Ends m (f (some b) p))
      → ((p : Parser) → Left p 0 → Ends m (f none p))
      → Ends m (and_then (word_of r p) f)
  word_of-Ends ts (word b z) le (t, rest, e, eb, q) got nothing =
      got b (record p { tokens = z }) (length rest) (ground arith)
        (record { tokens = rest; queue = q; few = omega arith })
  word_of-Ends ts (ended z) le (e, q) got nothing =
      nothing (record p { tokens = z }) (record { tokens = []; queue = q; few = omega arith })
  word_of-Ends ts failed le is got nothing = absurd is
  word_of-Ends ts hung le is got nothing = absurd is

  next_word-Ends :
      Left p n
      → ((b : List ℕ) (p : Parser) (k : ℕ) → suc k ≤ n → Left p k → Ends m (f (some b) p))
      → ((p : Parser) → Left p 0 → Ends m (f none p))
      → Ends m (and_then (next_word p) f)
  unfolding next_word
  next_word-Ends h got nothing =
      word_of-Ends h.tokens (tokenize_next p.tokens 256) h.few
        (tokenize_next-WordOf p.tokens h.tokens h.queue 256) got nothing

-- The same where it does not matter whether there is a word
any_word-Ends :
    {A : Type 0} (n : ℕ) (f : Option (List ℕ) → Parse A) (p : Parser)
    → Left p n
    → ((b : Option (List ℕ)) (p : Parser) → Left p n → Ends n (f b p))
    → Ends n (and_then (next_word p) f)
any_word-Ends n f p h next =
    next_word-Ends n n f p h (λ b p' k le h'. next (some b) p' (Left-less n h' (omega arith)))
      (λ p' h'. next none p' (Left-less n h' (omega arith)))

read_values-Ends : (r : ℕ) (w : List ℕ) (n : ℕ) (p : Parser) → Left p n → Ends n (read_values r w p)
read_values-Ends zero w n p h = elim (Kind-cases (kind_of w)) [
  | inl e ↦ rw (read_values-delimiter 0 w p e) h
  | inr (inl e) ↦ rw (read_values-separator 0 w p e) tt
  | inr (inr e) ↦ rw (read_values-full w p e) tt
]
read_values-Ends (suc r) w n p h = elim (Kind-cases (kind_of w)) [
  | inl e ↦ rw (read_values-delimiter (suc r) w p e) h
  | inr (inl e) ↦ rw (read_values-separator (suc r) w p e) tt
  | inr (inr e) ↦ rw (read_values-value r w p e) (
      Ends-bind n n (string_add w p) _ (string_add-Ends n p h w) (λ v p1 h1.
        any_word-Ends n _ p1 h1 (λ b p2 h2.
          Ends-bind n n (read_values r (or_last w b) p2) _
            (read_values-Ends r (or_last w b) n p2 h2) (λ x p3 h3. h3))))
]

-- What the calls of `parse_sub` from within it are known to do.
abbrev SubEnds : (Entries → Parse Entries) → ℕ → Type 0
SubEnds sub n = (e : Entries) (k : ℕ) (p : Parser) → k ≤ n → Left p k → Ends k (sub e p)

parse_block-Ends :
    (sub : Entries → Parse Entries) (w : List ℕ) (n : ℕ) (p : Parser)
    → SubEnds sub n
    → Left p n
    → Ends n (parse_block sub w p)
unfolding parse_block
parse_block-Ends sub w n p ih h = elim (Bool-cases (is_word w (codes "{"))) [
  | inl y ↦ rw y (ih unset n p (omega arith) h)
  | inr no_block ↦ rw no_block h
]

parse_entry-Ends :
    (sub : Entries → Parse Entries) (w : List ℕ) (n : ℕ) (p : Parser)
    → SubEnds sub n
    → Left p n
    → Ends n (parse_entry sub w p)
unfolding parse_entry name_of_file
parse_entry-Ends sub w n p ih h = Ends-bind n n (entry_new p) _ (entry_new-Ends n p h) (λ _ p1 h1.
    Ends-bind n n (string_add w p1) _ (string_add-Ends n p1 h1 w) (λ name p2 h2.
      Ends-bind n n (name_of_file p2) _ (string_add-Ends n p2 h2 _) (λ _ p3 h3.
        any_word-Ends n _ p3 h3 (λ b p4 h4.
          Ends-bind n n (read_values values_max (or_last w b) p4) _
            (read_values-Ends values_max (or_last w b) n p4 h4)
            (λ x p5 h5.
              Ends-bind n n (parse_block sub x.1 p5) _ (parse_block-Ends sub x.1 n p5 ih h5)
                (λ block p6 h6.
                  Ends-bind n n (sub end p6) _ (ih end n p6 (omega arith) h6)
                    (λ next p7 h7. h7)))))))

parse_word-Ends :
    (sub : Entries → Parse Entries) (e : Entries) (w : List ℕ) (n : ℕ) (p : Parser)
    → SubEnds sub n
    → Left p n
    → Ends n (parse_word sub e (some w) p)
unfolding parse_word
parse_word-Ends sub e w n p ih h = elim (Bool-cases (is_word w (codes "}"))) [
  | inl y ↦ rw y h
  | inr more ↦ rw more (parse_entry-Ends sub w n p ih h)
]

Ends-less : {A : Type 0} (n m : ℕ) (r : Parsed A) → n ≤ m → Ends n r → Ends m r
Ends-less n m (done a p) le h = Left-less m h le
Ends-less n m exited le h = tt
Ends-less n m fault le h = tt
Ends-less n m hang le h = tt
Ends-less n m no_fuel le h = h

parse_sub-Ends :
    (fuel : ℕ) (e : Entries) (n : ℕ) (p : Parser)
    → n < fuel
    → Left p n
    → Ends n (parse_sub fuel e p)
unfolding parse_sub parse_word
parse_sub-Ends zero e n p lt h = absurd (omega arith)
parse_sub-Ends (suc fuel) e n p lt h =
    next_word-Ends n n (parse_word (parse_sub fuel) e) p h
      (λ b p' k le h'. Ends-less k n _ (omega arith) (
        parse_word-Ends (parse_sub fuel) e b k p'
          (λ e2 j p2 le2 h2. parse_sub-Ends fuel e2 j p2 (omega arith) h2) h'))
      (λ p' h'. Left-less n h' (omega arith))

Ends-no_fuel : {A : Type 0} (n : ℕ) (r : Parsed A) → Ends n r → r ≢ no_fuel
Ends-no_fuel n (done a p) h e = cc
Ends-no_fuel n exited h e = cc
Ends-no_fuel n fault h e = cc
Ends-no_fuel n hang h e = cc
Ends-no_fuel n no_fuel h e = h

-- The parse of a file does not run out of fuel, where each read of the file delivers something and
-- the fuel exceeds the number of its tokens.
pub parse_file-ends :
    (reads : Reads) (fname : Text) (fuel : ℕ)
    → Steady reads
    → length (tokens_from (fresh 0) (all_bytes reads)) < fuel
    → parse_file fuel fname reads ≢ no_fuel
unfolding parse_file
parse_file-ends reads fname fuel steady lt =
    let n = length (tokens_from (fresh 0) (all_bytes reads)) in
    let start : Left (parse_new fname reads) n = record {
      tokens = tokens_from (fresh 0) (all_bytes reads);
      queue = tokenize_new-Holds reads steady;
      few = omega arith;
    } in
    Ends-no_fuel n _ (parse_sub-Ends fuel unset n (parse_new fname reads) lt start)
