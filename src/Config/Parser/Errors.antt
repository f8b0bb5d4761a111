-- ===== src/Config/Parser/Errors.antt =====
-- Where the parser does not return: a separator, and a file that ends within an entry.
use bootd.Base.{
  ℕ, zero, suc, ◌+◌, ◌≤◌, ◌≡◌, refl, ◌∙◌, ◌⊎◌, inl, inr, List, [], ◌∷◌, ◌++◌, length, Text, codes,
  c_string, arith, strcmp_eq,
}
use bootd.Server.Packet.{strncpy_field, zeros}
use bootd.Config.Parser.{
  Entries, values_max, Parser, Parsed, done, exited, fault, hang, no_fuel, Parse, and_then, ◌>>=◌,
  string_add, next_word, or_last, separator, kind_of, read_values, parse_entry, parse_word,
  parse_sub,
}
use bootd.Config.Parser.Steps.{
  field, c_string-field, Ready, Ready-less, Gives, read_values-value, read_values-separator,
  read_values-full,
}
use bootd.Config.Parser.Steps.Tables.{entry_new-Gives, string_add-Gives, name_of_file-Gives}
use bootd.Config.Parser.Steps.Words.{next_word-Gives, no_word-Gives}
use bootd.Config.Parser.Printed.{IsName, IsValue, AllValues, value-kind_of, is_word-field}

-- What a call fails with, as a result of any type.
pub data Failure : Type 0 where
  exits : Failure
  hangs : Failure

abbrev pub failure : {A : Type 0} → Failure → Parsed A
failure exits = exited
failure hangs = hang

failure-bind :
    {A B : Type 0} (x : Failure) (r : Parsed A) (f : A → Parse B)
    → r ≡ failure x
    → and_then r f ≡ failure x
failure-bind exits r f e = rw e refl
failure-bind hangs r f e = rw e refl

-- A call behind one that returns
Gives-failure :
    {A B : Type 0} {a : A} {ts : List Text} {j : ℕ} (x : Failure) (r : Parsed A) (f : A → Parse B)
    → Gives a ts j r
    → ((p : Parser) → Ready p ts j → f a p ≡ failure x)
    → and_then r f ≡ failure x
Gives-failure x r f h next = rw h.is (next h.left h.ready)

-- Two calls that are known to fail together
both-failure :
    {A B C : Type 0} (x : Failure) (r : Parsed C) (g : C → Parse A) (f : A → Parse B)
    → and_then r g ≡ failure x
    → and_then r (λ c. g c >>= f) ≡ failure x
both-failure x (done c p) g f e = failure-bind x (g c p) f e
both-failure exits exited g f e = refl
both-failure hangs exited g f e = cc
both-failure exits fault g f e = cc
both-failure hangs fault g f e = cc
both-failure exits hang g f e = cc
both-failure hangs hang g f e = refl
both-failure exits no_fuel g f e = cc
both-failure hangs no_fuel g f e = cc

-- The loop over values fails at the word `w`, where the tokens `q` follow it.
abbrev FailsAt : Failure → (k : ℕ) → (q : List Text) → (w : List ℕ) → Type 0
FailsAt x k q w = (r : ℕ) (p : Parser) → r ≤ 32 → Ready p q k → read_values r w p ≡ failure x

-- The loop over values that are followed by the token `c`
values-failure :
    (x : Failure) (vs : List Text) (r : ℕ) (w : List ℕ) (c : Text) (q : List Text) (m k : ℕ)
    (p : Parser)
    → AllValues vs
    → length vs ≤ r
    → 256 ≤ k
    → length vs + k ≤ m
    → FailsAt x k q (field c)
    → r ≤ 32
    → Ready p (vs ++ c ∷ q) m
    → and_then (next_word p) (λ b. read_values r (or_last w b)) ≡ failure x
values-failure x [] r w c q m k p all le more lm at few h =
    Gives-failure x (next_word p) _ (next_word-Gives p m c q h)
      (λ p' h'. at r p' few (Ready-less k h' (omega arith)))
values-failure x (v ∷ vs) zero w c q m k p all le more lm at few h = absurd (omega arith)
values-failure x (v ∷ vs) (suc r) w c q zero k p all le more lm at few h = absurd (omega arith)
values-failure x (v ∷ vs) (suc r) w c q (suc m) k p (iv, all) le more lm at few h =
    Gives-failure x (next_word p) _ (next_word-Gives p (suc m) v (vs ++ c ∷ q) h) (λ p1 h1.
      read_values-value r (field v) p1 (value-kind_of v iv)
      ∙ Gives-failure x (string_add (field v) p1) _
          (string_add-Gives p1 _ m h1 (omega arith) (field v) v (c_string-field v iv.0) iv.0.1)
          (λ p2 h2.
            both-failure x (next_word p2) (λ b. read_values r (or_last (field v) b)) _
              (values-failure x vs r (field v) c q m k p2 all (omega arith) more (omega arith) at
                (omega arith) h2)))

entry-failure :
    (x : Failure) (f : Entries → Parse Entries) (name : Text) (vs : List Text) (c : Text)
    → (q : List Text) (m k : ℕ) (p : Parser) → IsName name
    → AllValues vs
    → length vs ≤ 32
    → 256 ≤ k
    → 3 + length vs + k ≤ m
    → FailsAt x k q (field c)
    → Ready p (vs ++ c ∷ q) m
    → parse_entry f (field name) p ≡ failure x
unfolding parse_entry
entry-failure x f name vs c q m k p (sn, _) all le more lm at h =
    let queue = vs ++ c ∷ q in
    Gives-failure x _ _
      (entry_new-Gives p queue (2 + (length vs + k)) (Ready-less _ h (omega arith)) (omega arith))
      (λ p1 h1.
        Gives-failure x _ _
          (string_add-Gives p1 queue (1 + (length vs + k)) (Ready-less _ h1 (omega arith))
            (omega arith) (field name) name (c_string-field name sn) sn.1)
          (λ p2 h2.
            Gives-failure x _ _
              (name_of_file-Gives p2 queue (length vs + k) (Ready-less _ h2 (omega arith))
                (omega arith))
              (λ p3 h3.
                both-failure x (next_word p3) (λ b. read_values values_max (or_last (field name) b))
                  _
                  (values-failure x vs 32 (field name) c q _ k p3 all le more (omega arith) at
                    (omega arith) h3))))

parse_sub-failure :
    (x : Failure) (fuel : ℕ) (none_yet : Entries) (name : Text) (vs : List Text) (c : Text)
    → (q : List Text) (m k : ℕ) (p : Parser) → IsName name
    → AllValues vs
    → length vs ≤ 32
    → 256 ≤ k
    → 3 + length vs + k ≤ m
    → FailsAt x k q (field c)
    → Ready p (name ∷ vs ++ c ∷ q) m
    → parse_sub (suc fuel) none_yet p ≡ failure x
unfolding parse_sub parse_word
parse_sub-failure x fuel none_yet name vs c q m k p (sn, ne) all le more lm at h =
    Gives-failure x (next_word p) _ (next_word-Gives p m name (vs ++ c ∷ q) h) (λ p' h'.
      rw (is_word-field name (codes "}") sn ne)
        (entry-failure x (parse_sub fuel) name vs c q m k p' (sn, ne) all le more lm at h'))

separators : (c : Text) → (c ≡ codes ",") ⊎ (c ≡ codes "|") → kind_of (field c) ≡ separator
unfolding kind_of c_string strcmp_eq strncpy_field zeros
separators c (inl e) = rw e refl
separators c (inr e) = rw e refl

-- A `,` or a `|` behind the name of an entry and at most 32 values makes the parser hang, whatever
-- follows it, where the tables have room for the strings before it.
pub parse_sub-separator :
    (fuel : ℕ) (none_yet : Entries) (name : Text) (vs : List Text) (c : Text) (q : List Text)
    → (p : Parser) → IsName name
    → AllValues vs
    → length vs ≤ 32
    → (c ≡ codes ",") ⊎ (c ≡ codes "|")
    → Ready p (name ∷ vs ++ c ∷ q) (3 + length vs + 256)
    → parse_sub (suc fuel) none_yet p ≡ hang
parse_sub-separator fuel none_yet name vs c q p iname all le is h =
    parse_sub-failure hangs fuel none_yet name vs c q _ 256 p iname all le (omega arith)
      (omega arith) (λ r p' few h'. read_values-separator r (field c) p' (separators c is)) h

-- Without a word the last value is added again, until there are too many.
last-fails :
    (r : ℕ) (v : Text) (p : Parser)
    → IsValue v
    → Ready p [] (256 + r)
    → read_values r (field v) p ≡ exited
last-fails zero v p iv h = read_values-full (field v) p (value-kind_of v iv)
last-fails (suc r) v p iv h =
    read_values-value r (field v) p (value-kind_of v iv)
    ∙ Gives-failure exits (string_add (field v) p) _
        (string_add-Gives p [] (256 + r) (Ready-less _ h (omega arith)) (omega arith) (field v) v
          (c_string-field v iv.0) iv.0.1)
        (λ p1 h1.
          Gives-failure exits (next_word p1) _ (no_word-Gives p1 (256 + r) h1)
            (λ p2 h2. failure-bind exits (read_values r (field v) p2) _ (last-fails r v p2 iv h2)))

-- A file that ends behind the values of an entry, at least one and at most 33 of them, ends the
-- process with an error, where the tables have room.
pub parse_sub-cut :
    (fuel : ℕ) (none_yet : Entries) (name : Text) (vs : List Text) (v : Text) (p : Parser)
    → IsName name
    → AllValues vs
    → IsValue v
    → length vs ≤ 32
    → Ready p (name ∷ vs ++ v ∷ []) (3 + length vs + 288)
    → parse_sub (suc fuel) none_yet p ≡ exited
parse_sub-cut fuel none_yet name vs v p iname all iv le h =
    parse_sub-failure exits fuel none_yet name vs v [] _ 288 p iname all le (omega arith)
      (omega arith) (λ r p' few h'. last-fails r v p' iv (Ready-less _ h' (omega arith))) h
