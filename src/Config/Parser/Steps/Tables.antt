-- ===== src/Config/Parser/Steps/Tables.antt =====
-- The tables of strings and entries, where they have room.
use bootd.Base.{
  ℕ, suc, ◌+◌, ◌-◌, ◌≤◌, ◌<◌, ◌≡◌, refl, inl, inr, false, Bool-cases, Option-cases, Option, none,
  some, List, [], ◌∷◌, ◌++◌, ◌==◌, leb, length, length-append, Text, c_string, arith,
}
use bootd.Config.Parser.{
  Parser, done, has_room, current, string_table, string_put, string_add, mem, in_use, entry_new,
  with_nul, name_of_file,
}
use bootd.Config.Parser.Steps.{
  c_string-with_nul, free_strings, free_entries, returns, Gives-bind, Ready, Gives,
}

full-free_strings : (o : Option (List Text)) → has_room o ≡ false → free_strings o ≡ 0
full-free_strings none h = refl
full-free_strings (some xs) h = ground arith

put-free_strings :
    (o : Option (List Text)) (s : Text)
    → free_strings o ≤ suc (free_strings (some (current o ++ s ∷ [])))
put-free_strings none s = omega arith
put-free_strings (some xs) s = omega (arith, length-append xs (s ∷ []))

in_use-free_entries : (o : Option ℕ) (n : ℕ) → in_use o ≡ some n → free_entries o ≡ 256 - n
unfolding in_use
in_use-free_entries none n h = cc
in_use-free_entries (some m) n h = ground arith

full-free_entries : (o : Option ℕ) → in_use o ≡ none → free_entries o ≡ 0
unfolding in_use
full-free_entries none h = refl
full-free_entries (some m) h = ground arith

few-free_entries : (o : Option ℕ) → free_entries o ≤ 256
few-free_entries none = omega arith
few-free_entries (some n) = omega arith

few-free_strings : (o : Option (List Text)) → free_strings o ≤ 256
few-free_strings none = omega arith
few-free_strings (some xs) = omega arith

pub entry_new-in_use :
    (p : Parser) (n : ℕ)
    → in_use p.entries ≡ some n
    → entry_new p ≡ done tt (record p { entries = some (n + 1) })
unfolding entry_new in_use
entry_new-in_use p n e = ground arith

pub entry_new-table :
    (p : Parser)
    → in_use p.entries ≡ none
    → (p.tables == 256) ≡ false
    → entry_new p ≡ done tt (record p { entries = some 1; tables = p.tables + 1 })
unfolding entry_new in_use
entry_new-table p e t = ground arith

module _ (p : Parser) (ts : List Text) (k : ℕ) (h : Ready p ts (suc k)) (more : 256 ≤ k) where
  string_table-Gives : Gives tt ts (suc k) (string_table p)
  unfolding string_table
  string_table-Gives =
      let few : free_entries p.entries ≤ 256 = few-free_entries p.entries in
      elim (Bool-cases (has_room p.strings)) [
        | inl y ↦ record { left = p; is = simp y; ready = h }
        | inr n ↦ elim (Bool-cases (p.tables == 256)) [
          | inl e ↦ absurd (ground (arith, full-free_strings p.strings n, few, h.space))
          | inr e ↦
              rw (n, e)
                (returns record {
                  queue = h.queue;
                  space = ground (arith, full-free_strings p.strings n, h.space, h.tables);
                  name = h.name;
                  tables = ground (arith, h.tables);
                })
        ]
      ]

  string_put-Gives : (s : Text) → length s < 256 → Gives s ts k (string_put s p)
  unfolding string_put
  string_put-Gives s short =
      let fits : leb 256 (length s) ≡ false = ground arith in
      elim (Bool-cases (mem s (current p.strings))) [
        | inl y ↦
            rw (fits, y)
              (returns record {
                queue = h.queue;
                space = omega (arith, h.space);
                name = h.name;
                tables = h.tables;
              })
        | inr n ↦
            rw (fits, n)
              (returns record {
                queue = h.queue;
                space = omega (arith, h.space, put-free_strings p.strings s);
                name = h.name;
                tables = h.tables;
              })
      ]

  pub entry_new-Gives : Gives tt ts k (entry_new p)
  entry_new-Gives = elim (Option-cases (in_use p.entries)) [
    | inl e ↦ elim (Bool-cases (p.tables == 256)) [
      | inl t ↦
          absurd
            (ground (arith, full-free_entries p.entries e, few-free_strings p.strings, h.space))
      | inr t ↦ rw (entry_new-table p e t) (
          returns record {
            queue = h.queue;
            space = ground (arith, full-free_entries p.entries e, h.space, h.tables);
            name = h.name;
            tables = ground (arith, h.tables);
          })
    ]
    | inr (n, e) ↦ rw (entry_new-in_use p n e) (
        returns record {
          queue = h.queue;
          space = omega (arith, in_use-free_entries p.entries n e, h.space);
          name = h.name;
          tables = h.tables;
        })
  ]

pub string_add-Gives :
    (p : Parser) (ts : List Text) (k : ℕ)
    → Ready p ts (suc k)
    → 256 ≤ k
    → (buf : List ℕ) (s : Text) → c_string buf ≡ some s
    → length s < 256
    → Gives s ts k (string_add buf p)
unfolding string_add
string_add-Gives p ts k h more buf s e short =
    Gives-bind (string_table p) _ (string_table-Gives p ts k h more)
      (λ p' h'. rw e (string_put-Gives p' ts k h' more s short))

pub name_of_file-Gives :
    (p : Parser) (ts : List Text) (k : ℕ)
    → Ready p ts (suc k)
    → 256 ≤ k
    → Gives p.fname ts k (name_of_file p)
unfolding name_of_file
name_of_file-Gives p ts k h more =
    string_add-Gives p ts k h more (with_nul p.fname) p.fname (c_string-with_nul p.fname h.name.0)
      h.name.1
