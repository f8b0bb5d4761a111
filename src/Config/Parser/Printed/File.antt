-- ===== src/Config/Parser/Printed/File.antt =====
-- The entries of a block and of a file.
use mathlib.Core.List.{append_assoc, append-nil}
use bootd.Base.{
  ℕ, zero, suc, ◌+◌, ◌≤◌, ◌<◌, ◌≡◌, refl, ap, ◌∙◌, ◌⊎◌, inl, inr, true, false, List, [], ◌∷◌, ◌++◌,
  Text, codes, strcmp_eq, c_string, arith,
}
use bootd.Server.Packet.{strncpy_field, zeros}
use bootd.Config.Scanner.{fresh, Reads}
use bootd.Config.Scanner.Flat.{tokens_from, Steady, all_bytes}
use bootd.Config.Scanner.Render.{render, AllTokens, tokens_from-render}
use bootd.Config.Tokenizer.Queue.Next.{tokenize_new-Holds}
use bootd.Config.Parser.{
  Entries, end, unset, entry, Parser, done, Parse, and_then, next_word, is_word, kind_of,
  parse_block, parse_entry, parse_word, parse_sub, parse_new, parse_file,
}
use bootd.Config.Parser.Steps.{Short, field, Ready-less, room, Ready, Gives, Gives-bind, returns}
use bootd.Config.Parser.Steps.Words.{next_word-Gives, no_word-Gives}
use bootd.Config.Parser.Printed.{
  closing, print, cost, size, IsName, Written, is_word-field, Closes, entry-Gives,
}

-- Behind the entries of a block stands its `}`, behind those of a file nothing.
abbrev Stops : (q rest : List Text) → Type 0
Stops q rest = ((q ≡ []) × (rest ≡ [])) ⊎ (q ≡ codes "}" ∷ rest)

Closes-semicolon : Closes (codes ";")
unfolding kind_of c_string strcmp_eq strncpy_field zeros
Closes-semicolon = (((ground arith, tt), omega arith), refl)

Closes-brace : Closes (codes "{")
unfolding kind_of c_string strcmp_eq strncpy_field zeros
Closes-brace = (((ground arith, tt), omega arith), refl)

is_word-end : is_word (field (codes "}")) (codes "}") ≡ true
unfolding c_string strcmp_eq strncpy_field zeros
is_word-end = refl

is_word-open : is_word (field (codes "{")) (codes "{") ≡ true
unfolding c_string strcmp_eq strncpy_field zeros
is_word-open = refl

is_word-semicolon : is_word (field (codes ";")) (codes "{") ≡ false
unfolding c_string strcmp_eq strncpy_field zeros
is_word-semicolon = refl

-- No entry is left.
stop-Gives :
    (f : Entries → Parse Entries) (none_yet : Entries) (q rest : List Text) (k : ℕ) (p : Parser)
    → Stops q rest
    → Ready p q k
    → Gives none_yet rest k (and_then (next_word p) (parse_word f none_yet))
unfolding parse_word
stop-Gives f none_yet q rest k p (inl (eq, er)) h =
    rw er (Gives-bind (next_word p) _ (no_word-Gives p k (rw (← eq) h)) (λ p' h'. returns h'))
stop-Gives f none_yet q rest k p (inr eq) h =
    Gives-bind (next_word p) _ (next_word-Gives p k (codes "}") rest (rw (← eq) h))
      (λ p' h'. rw is_word-end (returns h'))

abbrev PrintGives : (n : ℕ) (none_yet es : Entries) → Type 0
PrintGives n none_yet es =
    (q rest : List Text) (m k : ℕ) (p : Parser)
    → Stops q rest
    → 256 ≤ k
    → cost es + k ≤ m
    → Ready p (print es ++ q) m
    → Gives es rest k (parse_sub n none_yet p)

-- The block of an entry
block-Gives :
    (n : ℕ) (sub : Entries) (q : List Text) (kb kn : ℕ) (p : Parser)
    → PrintGives n unset sub
    → 256 ≤ kn
    → cost sub + kn ≤ kb
    → Ready p (print sub ++ codes "}" ∷ q) kb
    → Gives sub q kn (parse_block (parse_sub n) (field (codes "{")) p)
unfolding parse_block
block-Gives n sub q kb kn p ih more le h =
    rw is_word-open (ih (codes "}" ∷ q) q kb kn p (inr refl) more le h)

no_block-Gives :
    (f : Entries → Parse Entries) (q : List Text) (k : ℕ) (p : Parser)
    → Ready p q k
    → Gives end q k (parse_block f (field (codes ";")) p)
unfolding parse_block
no_block-Gives f q k p h = rw is_word-semicolon (returns h)

size-pos : (es : Entries) → 0 < size es
size-pos end = omega arith
size-pos unset = omega arith
size-pos (entry name values sub processed next) = omega arith

closing-block :
    (sub : Entries) (inner : List Text)
    → Written unset sub
    → closing sub inner ≡ codes "{" ∷ inner ++ codes "}" ∷ []
closing-block end inner h = cc
closing-block unset inner h = refl
closing-block (entry name values sub processed next) inner h = refl

queue-block :
    (values inner behind q : List Text) (a b : Text)
    → (values ++ ((a ∷ inner ++ b ∷ []) ++ behind)) ++ q
      ≡ values ++ a ∷ (inner ++ b ∷ (behind ++ q))
queue-block values inner behind q a b =
    append_assoc values _ q
    ∙ ap (λ x. values ++ a ∷ x)
        (append_assoc (inner ++ b ∷ []) behind q ∙ append_assoc inner (b ∷ []) (behind ++ q))

-- The first word of an entry is read, and the entry follows.
named-Gives :
    (f : Entries → Parse Entries) (none_yet : Entries) (name : Text) (queue rest : List Text)
    → (e : Entries) (m k : ℕ) (p : Parser) → IsName name
    → ((p : Parser) → Ready p queue m → Gives e rest k (parse_entry f (field name) p))
    → Ready p (name ∷ queue) m
    → Gives e rest k (and_then (next_word p) (parse_word f none_yet))
unfolding parse_word
named-Gives f none_yet name queue rest e m k p (sn, ne) behind h =
    Gives-bind (next_word p) _ (next_word-Gives p m name queue h)
      (λ p' h'. rw (is_word-field name (codes "}") sn ne) (behind p' h'))

print-Gives :
    (n : ℕ) (none_yet es : Entries) → Written none_yet es → size es ≤ n → PrintGives n none_yet es
unfolding parse_sub
print-Gives zero none_yet es w le q rest m k p stops more lm h = absurd (omega (arith, size-pos es))
print-Gives (suc n) none_yet end w le q rest m k p stops more lm h =
    rw w (stop-Gives (parse_sub n) end q rest k p stops (Ready-less k h (omega arith)))
print-Gives (suc n) none_yet unset w le q rest m k p stops more lm h =
    rw w (stop-Gives (parse_sub n) unset q rest k p stops (Ready-less k h (omega arith)))
print-Gives (suc n) none_yet (entry name values sub processed next)
      (iname, all, few, inl no_sub, new, inext) le q rest m k p stops more lm h =
    let tail =
      print-Gives n end next inext (omega (arith, size-pos sub)) q rest (cost next + k) k in
    let queue : (values ++ (closing sub (print sub) ++ print next)) ++ q
        ≡ values ++ codes ";" ∷ (print next ++ q) =
      rw no_sub (append_assoc values _ q) in
    rw (new, no_sub)
      (named-Gives (parse_sub n) none_yet name (values ++ codes ";" ∷ (print next ++ q)) rest _ m k
        p iname
        (λ p' h'.
          entry-Gives (parse_sub n) name values (codes ";") (print next ++ q) (print next ++ q) rest
            end next m (cost next + k) (cost next + k) k p' iname all few Closes-semicolon
            (omega arith) (omega arith)
            (λ p2 h2. no_block-Gives (parse_sub n) (print next ++ q) (cost next + k) p2 h2)
            (λ p3 h3. tail p3 stops more (omega arith) h3) h')
        (rw (← queue) h))
print-Gives (suc n) none_yet (entry name values sub processed next)
      (iname, all, few, inr block, new, inext) le q rest m k p stops more lm h =
    let inner = print-Gives n unset sub block (omega (arith, size-pos next)) in
    let tail =
      print-Gives n end next inext (omega (arith, size-pos sub)) q rest (cost next + k) k in
    let follow = print sub ++ codes "}" ∷ (print next ++ q) in
    let queue : (values ++ (closing sub (print sub) ++ print next)) ++ q
        ≡ values ++ codes "{" ∷ follow =
      rw (closing-block sub (print sub) block)
        (queue-block values (print sub) (print next) q (codes "{") (codes "}")) in
    rw new (
      named-Gives (parse_sub n) none_yet name (values ++ codes "{" ∷ follow) rest _ m k p iname
        (λ p' h'.
          entry-Gives (parse_sub n) name values (codes "{") follow (print next ++ q) rest sub next m
            (cost sub + (cost next + k)) (cost next + k) k p' iname all few Closes-brace
            (omega arith) (omega arith)
            (λ p2 h2.
              block-Gives n sub (print next ++ q) (cost sub + (cost next + k)) (cost next + k) p2
                inner (omega arith) (omega arith) h2)
            (λ p3 h3. tail p3 stops more (omega arith) h3) h')
        (rw (← queue) h))

-- A file that is written for given entries is read back: where its reads deliver the rendered
-- tokens of the entries, in whatever pieces, the tables have room for them, and the fuel exceeds
-- the depth and number of the entries, the parser returns the very entries.
pub parse_file-print :
    (es : Entries) (reads : Reads) (fname : Text) (fuel : ℕ)
    → Written unset es
    → AllTokens (print es)
    → Steady reads
    → all_bytes reads ≡ render (print es)
    → Short fname
    → cost es ≤ 65280
    → size es ≤ fuel
    → (p : Parser) × (parse_file fuel fname reads ≡ done es p)
unfolding parse_file
parse_file-print es reads fname fuel w tokens steady bytes short room le =
    let all : tokens_from (fresh 0) (all_bytes reads) ≡ print es =
      rw bytes (tokens_from-render (print es) 0 tokens) in
    let whole : print es ++ [] ≡ print es = append-nil (print es) in
    let start : Ready (parse_new fname reads) (print es ++ []) 65536 = record {
      queue = rw (whole, ← all) (tokenize_new-Holds reads steady);
      space = omega arith;
      name = short;
      tables = omega arith;
    } in
    let g =
      print-Gives fuel unset es w le [] [] 65536 256 (parse_new fname reads) (inl (refl, refl))
        (omega arith) (omega arith) start in
    (g.left, g.is)
