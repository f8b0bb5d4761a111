-- ===== src/Config/Tokenizer/Queue.antt =====
-- The queue of tokens that a tokenizer stands for.
pub mod Next
use mathlib.Core.List.{append_assoc}
use bootd.Base.{
  ℕ, zero, suc, ◌+◌, ◌-◌, ◌<◌, ◌≡◌, refl, sym, ap, ◌∙◌, ◌⊎◌, inl, inr, false, Option, none, some,
  List, [], ◌∷◌, ◌++◌, ◌==◌, ltb, if◌then◌else◌, set, length, length-append, length-set,
  get_elem?-set, Text, arith,
}
use bootd.Config.Scanner.{fresh, Reads, got}
use bootd.Config.Scanner.Flat.{tokens_from, Steady, all_bytes, TokenOf}
use bootd.Config.Tokenizer.{Tokenizer, next_slot, first_slot, is_full, accept, text_at}

-- `k` tokens of the ring from `i` on.
abbrev pub window : List Text → (i k : ℕ) → List Text
window tokens i zero = []
window tokens i (suc k) = text_at tokens i ∷ window tokens (next_slot i) k

-- The slot behind `k` tokens from `i` on.
abbrev pub slot_behind : (i k : ℕ) → ℕ
slot_behind i k = if ltb (i + k) 5 then i + k else i + k - 5

slot_behind-next : (i k : ℕ) → i < 5 → k < 5 → slot_behind (next_slot i) k ≡ slot_behind i (suc k)
slot_behind-next i k hi hk = ground arith

text_at-set :
    (tokens : List Text) (j i : ℕ) (t : Text)
    → j < length tokens
    → text_at (set tokens j t) i ≡ (if j == i then t else text_at tokens i)
text_at-set tokens j i t h = ground (arith, get_elem?-set tokens j i t)

-- A write behind a window that is not the whole ring puts a token at its end.
window-set :
    (tokens : List Text) (t : Text) (i k j : ℕ)
    → length tokens ≡ 5
    → i < 5
    → k < 5
    → j ≡ slot_behind i k
    → window (set tokens j t) i (suc k) ≡ window tokens i k ++ t ∷ []
window-set tokens t i zero j e hi hk ej = ground (arith, text_at-set tokens j i t)
window-set tokens t i (suc k) j e hi hk ej =
    let first : text_at (set tokens j t) i ≡ text_at tokens i =
      ground (arith, text_at-set tokens j i t) in
    let rest : window (set tokens j t) (next_slot i) (suc k)
        ≡ window tokens (next_slot i) k ++ t ∷ [] =
      window-set tokens t (next_slot i) k j e (ground arith) (omega arith)
        (ej ∙ sym (slot_behind-next i k hi (omega arith))) in
    cc

-- The tokens that the file still has behind those of the ring.
abbrev pub pending : Tokenizer → List Text
pending z = tokens_from (fresh z.line) (z.buf ++ all_bytes z.reads)

-- The ring holds the tokens `q`, the oldest first. Once it has run empty, the file has no more.
abbrev pub Ring : Tokenizer → Option ℕ → (q : List Text) → Type 0
Ring z none q = (q ≡ []) × ((z.te ≡ 0) ⊎ (pending z ≡ []))
Ring z (some i) q =
    (k : ℕ) × (k < 5) × (i < 5) × (z.te ≡ slot_behind i (suc k)) × (q ≡ window z.tokens i (suc k))

-- The tokenizer stands for this queue of tokens.
pub record Holds (z : Tokenizer) (ts : List Text) : Type 0 where
  pub slots : length z.tokens ≡ 5
  pub inside : z.te < 5
  pub steady : Steady z.reads
  pub queue : List Text
  pub ring : Ring z z.ts queue
  pub splits : ts ≡ queue ++ pending z

pub length-window : (tokens : List Text) (i k : ℕ) → length (window tokens i k) ≡ k
length-window tokens i zero = refl
length-window tokens i (suc k) = ground (arith, length-window tokens (next_slot i) k)

-- A ring of five tokens is full, and no other is.
pub Ring-is_full :
    (z : Tokenizer) (i : Option ℕ) (q : List Text)
    → Ring z i q
    → if is_full i z.te then length q ≡ 5 else length q < 5
Ring-is_full z none q (e, _) = rw e (omega arith)
Ring-is_full z (some i) q (k, hk, hi, ete, eq) =
    rw eq (ground (arith, length-window z.tokens i (suc k)))

accept-Ring :
    (z : Tokenizer) (i : Option ℕ) (q : List Text) (t : Text) (rest : List Text)
    → (line : ℕ) (buf : List ℕ) (reads : Reads) → length z.tokens ≡ 5
    → Ring z i q
    → is_full i z.te ≡ false
    → pending z ≡ t ∷ rest
    → Ring (accept z t line buf reads) (some (first_slot i)) (q ++ t ∷ [])
unfolding accept
accept-Ring z none q t rest line buf reads hl (e, inr none_left) free first = cc
accept-Ring z none q t rest line buf reads hl (e, inl ete) free first = (
  0,
  omega arith,
  omega arith,
  ground arith,
  ap (λ x. x ++ t ∷ []) e
      ∙ sym (window-set z.tokens t 0 0 z.te hl (omega arith) (omega arith) (ground arith)),
)
accept-Ring z (some i) q t rest line buf reads hl (k, hk, hi, ete, eq) free first =
    let small : suc k < 5 = ground arith in
    (
      suc k,
      small,
      hi,
      ground arith,
      ap (λ x. x ++ t ∷ []) eq ∙ sym (window-set z.tokens t i (suc k) z.te hl hi small ete),
    )

-- A token that was read goes from the file to the ring, and the queue stays what it was.
pub accept-Holds :
    (z : Tokenizer) (ts : List Text) (h : Holds z ts)
    → (t : Text) (line : ℕ) (buf : List ℕ) (reads : Reads) → is_full z.ts z.te ≡ false
    → TokenOf (pending z) (got t line buf reads)
    → (h' : Holds (accept z t line buf reads) ts) × (length h'.queue ≡ suc (length h.queue))
unfolding accept
accept-Holds z ts h t line buf reads free (ok, first) = (
  record {
    slots = length-set z.tokens z.te t ∙ h.slots;
    inside = ground (arith, h.inside);
    steady = ok;
    queue = h.queue ++ t ∷ [];
    ring = accept-Ring z z.ts h.queue t _ line buf reads h.slots h.ring free first;
    splits = h.splits ∙ ap (λ x. h.queue ++ x) first ∙ sym (append_assoc h.queue (t ∷ []) _);
  },
  omega (arith, length-append h.queue (t ∷ [])),
)
