-- ===== src/Config/Tokenizer/Queue/Next.antt =====
-- The fill of the ring and the next word, against the queue of tokens.
use bootd.Base.{
  ℕ, zero, suc, ◌+◌, ◌%◌, ◌≤◌, ◌<◌, ◌≡◌, refl, ap, ◌∙◌, ◌⊎◌, inl, inr, true, false, Bool-cases,
  Option, none, some, List, [], ◌∷◌, ◌++◌, ltb, length, Text, arith,
}
use bootd.Server.Packet.{strncpy_field}
use bootd.Config.Scanner.{fresh, Reads, TokenRead, got, at_eof, read_failed, read_token}
use bootd.Config.Scanner.Flat.{tokens_from, Steady, all_bytes, TokenOf, read_token-TokenOf}
use bootd.Config.Tokenizer.{
  Tokenizer, next_slot, first_slot, is_full, accept, Filled, filled, fill_failed, unfinished, fill,
  fill_rounds, Word, word, ended, failed, hung, text_at, ahead_max, look, ahead_of, tokenize_ahead,
  start_behind, take_word, tokenize_next, tokenize_new,
}
use bootd.Config.Tokenizer.Queue.{
  window, slot_behind, pending, Ring, length-window, Ring-is_full, accept-Holds, Holds,
}

-- What a fill leaves: a full ring, or a file without tokens.
abbrev FillOf : List Text → Filled → Type 0
FillOf ts (filled z) = (h : Holds z ts) × ((length h.queue ≡ 5) ⊎ (pending z ≡ []))
FillOf ts fill_failed = ⊥
FillOf ts unfinished = ⊥

eof-Ring :
    (z : Tokenizer) (i : Option ℕ) (q : List Text) (line : ℕ)
    → Ring z i q
    → Ring (record z { buf = []; reads = []; line = line }) i q
eof-Ring z none q line (e, _) = (e, inr refl)
eof-Ring z (some i) q line r = r

eof-FillOf :
    (z : Tokenizer) (ts : List Text) (h : Holds z ts) (line : ℕ) (reads : Reads)
    → TokenOf (pending z) (at_eof line reads)
    → FillOf ts (filled (record z { buf = []; reads = reads; line = line }))
eof-FillOf z ts h line reads (e, done) = rw e (
  record {
    slots = h.slots;
    inside = h.inside;
    steady = tt;
    queue = h.queue;
    ring = eof-Ring z z.ts h.queue line h.ring;
    splits = h.splits ∙ ap (λ x. h.queue ++ x) done;
  },
  inr refl,
)

-- A round of the loop, by the token that was read.
abbrev after_read : (n : ℕ) → Tokenizer → TokenRead → Filled
after_read n z (got t line buf reads) = fill n (accept z t line buf reads)
after_read n z (at_eof line reads) = filled (record z { buf = []; reads = reads; line = line })
after_read n z read_failed = fill_failed

fill-full : (n : ℕ) (z : Tokenizer) → is_full z.ts z.te ≡ true → fill n z ≡ filled z
unfolding fill
fill-full zero z e = rw e refl
fill-full (suc n) z e = ground arith

fill-suc :
    (n : ℕ) (z : Tokenizer)
    → is_full z.ts z.te ≡ false
    → fill (suc n) z ≡ after_read n z (read_token z.line z.buf z.reads)
unfolding fill
fill-suc n z e = ground arith

read-FillOf :
    (n : ℕ) (z : Tokenizer) (ts : List Text) (h : Holds z ts)
    → 5 ≤ length h.queue + suc n
    → is_full z.ts z.te ≡ false
    → ((z' : Tokenizer) (h' : Holds z' ts) → 5 ≤ length h'.queue + n → FillOf ts (fill n z'))
    → (r : TokenRead) → TokenOf (pending z) r
    → FillOf ts (after_read n z r)
read-FillOf n z ts h enough free ih (got t line buf reads) is =
    let (h', more) = accept-Holds z ts h t line buf reads free is in
    ih (accept z t line buf reads) h' (omega arith)
read-FillOf n z ts h enough free ih (at_eof line reads) is = eof-FillOf z ts h line reads is
read-FillOf n z ts h enough free ih read_failed is = absurd is

fill-FillOf :
    (n : ℕ) (z : Tokenizer) (ts : List Text) (h : Holds z ts)
    → 5 ≤ length h.queue + n
    → FillOf ts (fill n z)
fill-FillOf zero z ts h enough =
    let full : is_full z.ts z.te ≡ true = ground (arith, Ring-is_full z z.ts h.queue h.ring) in
    rw (fill-full 0 z full) (h, inl (ground (arith, Ring-is_full z z.ts h.queue h.ring)))
fill-FillOf (suc n) z ts h enough = elim (Bool-cases (is_full z.ts z.te)) [
  | inl e ↦ rw (fill-full (suc n) z e) (h, inl (ground (arith, Ring-is_full z z.ts h.queue h.ring)))
  | inr e ↦ rw (fill-suc n z e) (
      read-FillOf n z ts h enough e (λ z' h' le. fill-FillOf n z' ts h' le) _
        (read_token-TokenOf z.line z.buf z.reads h.steady))
]

-- What the next word says of the queue: its first token, where it has one.
abbrev pub WordOf : (l : ℕ) → List Text → Word → Type 0
WordOf l ts (word b z) =
    (t : Text) × (rest : List Text) × (ts ≡ t ∷ rest) × (b ≡ strncpy_field l t) × Holds z rest
WordOf l ts (ended z) = (ts ≡ []) × Holds z []
WordOf l ts failed = ⊥
WordOf l ts hung = ⊥

start_behind-Ring :
    (z : Tokenizer) (i k : ℕ)
    → i < 5
    → k < 5
    → z.te ≡ slot_behind i (suc k)
    → (k ≡ 4) ⊎ (pending z ≡ [])
    → Ring z (start_behind i z.te) (window z.tokens (next_slot i) k)
start_behind-Ring z i zero hi hk e (inl four) = absurd (omega arith)
start_behind-Ring z i zero hi hk e (inr done) =
    let last : start_behind i z.te ≡ none = ground arith in rw last (refl, inr done)
start_behind-Ring z i (suc k) hi hk e enough =
    let next : start_behind i z.te ≡ some (next_slot i) = ground arith in
    rw next (k, omega arith, ground arith, ground arith, refl)

look-first :
    (z : Tokenizer) (i l : ℕ)
    → i < 5
    → look z (some i) 0 l ≡ word (strncpy_field l (text_at z.tokens i)) z
unfolding look
look-first z i l hi =
    let here : (0 + i) % 5 ≡ i = omega arith in
    let shown : ltb (ahead_max i z.te) 0 ≡ false = ground arith in simp (shown, here)

-- Behind a fill
took-WordOf :
    (z : Tokenizer) (ts : List Text) (h : Holds z ts) (l : ℕ) (i : Option ℕ)
    → z.ts ≡ i
    → Ring z i h.queue
    → (length h.queue ≡ 5) ⊎ (pending z ≡ [])
    → WordOf l ts (take_word (look z i 0 l))
unfolding take_word look
took-WordOf z ts h l none ei (e, _) (inl five) = ground arith
took-WordOf z ts h l none ei (e, _) (inr done) =
    let empty : ts ≡ [] = h.splits ∙ ap (λ x. x ++ pending z) e ∙ done in (empty, rw (← empty) h)
took-WordOf z ts h l (some i) ei (k, hk, hi, ete, eq) enough =
    let five : length h.queue ≡ suc k = ap length eq ∙ length-window z.tokens i (suc k) in
    let left : (k ≡ 4) ⊎ (pending z ≡ []) = elim enough [
      | inl f ↦ inl (omega arith)
      | inr d ↦ inr d
    ] in
    let now : first_slot z.ts ≡ i = ap first_slot ei in
    rw (look-first z i l hi) (
      text_at z.tokens i,
      window z.tokens (next_slot i) k ++ pending z,
      h.splits ∙ ap (λ x. x ++ pending z) eq,
      refl,
      rw now (record {
        slots = h.slots;
        inside = h.inside;
        steady = h.steady;
        queue = window z.tokens (next_slot i) k;
        ring = start_behind-Ring z i k hi hk ete left;
        splits = refl;
      }),
    )

filled-WordOf :
    (ts : List Text) (l : ℕ) (f : Filled) → FillOf ts f → WordOf l ts (take_word (ahead_of f 0 l))
unfolding ahead_of
filled-WordOf ts l (filled z) (h, enough) = took-WordOf z ts h l z.ts refl h.ring enough
filled-WordOf ts l fill_failed is = absurd is
filled-WordOf ts l unfinished is = absurd is

-- A file that was opened, where each read of it delivers something.
pub tokenize_new-Holds :
    (reads : Reads)
    → Steady reads
    → Holds (tokenize_new reads) (tokens_from (fresh 0) (all_bytes reads))
tokenize_new-Holds reads ok = record {
  slots = refl;
  inside = omega arith;
  steady = ok;
  queue = [];
  ring = (refl, inl refl);
  splits = refl;
}

-- Where the tokenizer stands for a queue of tokens, the next word is the first token of the queue,
-- cut as `strncpy` cuts it, and the tokenizer then stands for the tokens behind it. There is no
-- word where the queue is empty, and only there; then it stays empty. The fill of the ring always
-- ends, and no read fails.
pub tokenize_next-WordOf :
    (z : Tokenizer) (ts : List Text) → Holds z ts → (l : ℕ) → WordOf l ts (tokenize_next z l)
unfolding tokenize_next tokenize_ahead
tokenize_next-WordOf z ts h l =
    filled-WordOf ts l (fill fill_rounds z) (fill-FillOf fill_rounds z ts h (omega arith))
