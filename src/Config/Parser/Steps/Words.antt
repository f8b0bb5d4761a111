-- ===== src/Config/Parser/Steps/Words.antt =====
-- The words that the parser takes, where the queue of tokens is known.
use bootd.Base.{ℕ, ◌≡◌, none, some, List, [], ◌∷◌, Text}
use bootd.Config.Tokenizer.{Word, word, ended, failed, hung, tokenize_next}
use bootd.Config.Tokenizer.Queue.Next.{WordOf, tokenize_next-WordOf}
use bootd.Config.Parser.{Parser, word_of, next_word}
use bootd.Config.Parser.Steps.{field, Ready, Gives, returns}

word_of-Gives :
    (p : Parser) (k : ℕ) (t : Text) (ts : List Text)
    → Ready p (t ∷ ts) k
    → (r : Word) → WordOf 256 (t ∷ ts) r
    → Gives (some (field t)) ts k (word_of r p)
word_of-Gives p k t ts h (word b z) (t', rest, e, eb, q) =
    let et : t' ≡ t = cc in
    let er : rest ≡ ts = cc in
    rw (eb, et, ← er)
      (returns (record { queue = q; space = h.space; name = h.name; tables = h.tables }))
word_of-Gives p k t ts h (ended z) (e, _) = cc
word_of-Gives p k t ts h failed is = absurd is
word_of-Gives p k t ts h hung is = absurd is

pub next_word-Gives :
    (p : Parser) (k : ℕ) (t : Text) (ts : List Text)
    → Ready p (t ∷ ts) k
    → Gives (some (field t)) ts k (next_word p)
unfolding next_word
next_word-Gives p k t ts h =
    word_of-Gives p k t ts h (tokenize_next p.tokens 256)
      (tokenize_next-WordOf p.tokens (t ∷ ts) h.queue 256)

no_word_of-Gives :
    (p : Parser) (k : ℕ)
    → Ready p [] k
    → (r : Word) → WordOf 256 [] r
    → Gives none [] k (word_of r p)
no_word_of-Gives p k h (word b z) (t, rest, e, _, _) = cc
no_word_of-Gives p k h (ended z) (_, q) =
    returns (record { queue = q; space = h.space; name = h.name; tables = h.tables })
no_word_of-Gives p k h failed is = absurd is
no_word_of-Gives p k h hung is = absurd is

pub no_word-Gives : (p : Parser) (k : ℕ) → Ready p [] k → Gives none [] k (next_word p)
unfolding next_word
no_word-Gives p k h =
    no_word_of-Gives p k h (tokenize_next p.tokens 256)
      (tokenize_next-WordOf p.tokens [] h.queue 256)
