-- ===== src/Config/Parser/Printed.antt =====
-- What the parser makes of the tokens that are written for given entries.
pub mod File
use bootd.Base.{
  ℕ, zero, suc, ◌+◌, ◌≤◌, ◌≡◌, ◌≢◌, ◌⊎◌, inl, inr, false, Bool-cases, List, [], ◌∷◌, ◌++◌, length,
  Text, codes, strcmp_eq, strcmp_eq→eq, arith,
}
use bootd.Config.Parser.{
  Entries, end, unset, entry, values_max, Parser, Parse, pure, and_then, string_add, next_word,
  or_last, is_word, delimiter, value, kind_of, read_values, parse_block, parse_entry,
}
use bootd.Config.Parser.Steps.{
  Short, field, Ready-less, c_string-field, room, Ready, Gives, Gives-bind, Gives-both, returns,
  read_values-delimiter, read_values-value,
}
use bootd.Config.Parser.Steps.Tables.{entry_new-Gives, string_add-Gives, name_of_file-Gives}
use bootd.Config.Parser.Steps.Words.{next_word-Gives}

-- The tokens behind the values of an entry: `;`, or a block, of which `inner` are the tokens.
abbrev pub closing : (sub : Entries) → (inner : List Text) → List Text
closing end inner = codes ";" ∷ []
closing unset inner = codes "{" ∷ inner ++ codes "}" ∷ []
closing (entry name values sub processed next) inner = codes "{" ∷ inner ++ codes "}" ∷ []

abbrev pub print : Entries → List Text
print end = []
print unset = []
print (entry name values sub processed next) =
    name ∷ values ++ (closing sub (print sub) ++ print next)

-- How many strings and entries the parser puts into its tables: for each entry its own, its name
-- and that of the file, and its values.
abbrev pub cost : Entries → ℕ
cost end = 0
cost unset = 0
cost (entry name values sub processed next) = 3 + length values + cost sub + cost next

-- A bound on the depth of calls
abbrev pub size : Entries → ℕ
size end = 1
size unset = 1
size (entry name values sub processed next) = suc (size sub + size next)

abbrev pub IsValue : Text → Type 0
IsValue v = Short v × (v ≢ codes "{") × (v ≢ codes ";") × (v ≢ codes ",") × (v ≢ codes "|")

abbrev pub AllValues : List Text → Type 0
AllValues [] = Unit {0}
AllValues (v ∷ vs) = IsValue v × AllValues vs

abbrev pub IsName : Text → Type 0
IsName name = Short name × (name ≢ codes "}")

-- Entries that can be written. A list without an entry is `none_yet`: a block without an entry
-- leaves a pointer that was never written.
abbrev pub Written : (none_yet : Entries) → Entries → Type 0
Written none_yet end = none_yet ≡ end
Written none_yet unset = none_yet ≡ unset
Written none_yet (entry name values sub processed next) =
    IsName name
    × AllValues values
    × (length values ≤ 32)
    × ((sub ≡ end) ⊎ Written unset sub)
    × (processed ≡ false)
    × Written end next

pub is_word-field : (t s : Text) → Short t → t ≢ s → is_word (field t) s ≡ false
is_word-field t s h ne =
    rw (c_string-field t h, is_word)
      (elim (Bool-cases (strcmp_eq t s)) [ inl y ↦ absurd (ne (strcmp_eq→eq t s y)) | inr n ↦ n ])

pub value-kind_of : (v : Text) → IsValue v → kind_of (field v) ≡ value
unfolding kind_of
value-kind_of v (h, n1, n2, n3, n4) = simp (
  is_word-field v (codes "{") h n1,
  is_word-field v (codes ";") h n2,
  is_word-field v (codes ",") h n3,
  is_word-field v (codes "|") h n4,
)

-- `{` and `;`
abbrev pub Closes : Text → Type 0
Closes c = Short c × (kind_of (field c) ≡ delimiter)

-- The values of an entry, up to what ends them
values-Gives :
    (vs : List Text) (room : ℕ) (w : List ℕ) (c : Text) (q : List Text) (m k : ℕ) (p : Parser)
    → AllValues vs
    → length vs ≤ room
    → Closes c
    → 256 ≤ k
    → length vs + k ≤ m
    → Ready p (vs ++ c ∷ q) m
    → Gives (vs, field c) q k (and_then (next_word p) (λ b. read_values room (or_last w b)))
values-Gives [] zero w c q m k p all le (sc, is) more lm h =
    Gives-bind (next_word p) _ (next_word-Gives p m c q h) (λ p' h'.
      rw (read_values-delimiter _ (field c) p' is) (returns (Ready-less k h' (omega arith))))
values-Gives [] (suc r) w c q m k p all le (sc, is) more lm h =
    Gives-bind (next_word p) _ (next_word-Gives p m c q h) (λ p' h'.
      rw (read_values-delimiter _ (field c) p' is) (returns (Ready-less k h' (omega arith))))
values-Gives (v ∷ vs) zero w c q m k p all le (sc, is) more lm h = absurd (omega arith)
values-Gives (v ∷ vs) (suc r) w c q zero k p (iv, all) le cl more lm h = absurd (omega arith)
values-Gives (v ∷ vs) (suc r) w c q (suc m) k p (iv, all) le cl more lm h =
    Gives-bind (next_word p) _ (next_word-Gives p (suc m) v (vs ++ c ∷ q) h) (λ p1 h1.
      rw (read_values-value r (field v) p1 (value-kind_of v iv)) (
        Gives-bind (string_add (field v) p1) _
          (string_add-Gives p1 _ m h1 (omega arith) (field v) v (c_string-field v iv.0) iv.0.1)
          (λ p2 h2.
            Gives-both (next_word p2) (λ b. read_values r (or_last (field v) b))
              (λ x. pure (v ∷ x.0, x.1))
              (values-Gives vs r (field v) c q m k p2 all (omega arith) cl more (omega arith) h2)
              (λ p3 h3. returns h3))))

-- An entry, where the block behind its values and the entries behind it are known.
pub entry-Gives :
    (f : Entries → Parse Entries) (name : Text) (vs : List Text) (c : Text)
    → (follow after rest : List Text) (sub next : Entries) (m kb kn k : ℕ) (p : Parser)
    → IsName name
    → AllValues vs
    → length vs ≤ 32
    → Closes c
    → 256 ≤ kb
    → 3 + length vs + kb ≤ m
    → ((p : Parser) → Ready p follow kb → Gives sub after kn (parse_block f (field c) p))
    → ((p : Parser) → Ready p after kn → Gives next rest k (f end p))
    → Ready p (vs ++ c ∷ follow) m
    → Gives (entry name vs sub false next) rest k (parse_entry f (field name) p)
unfolding parse_entry
entry-Gives f name vs c follow after rest sub next m kb kn k p (sn, _) all le cl more lm block tail
      h =
    let queue = vs ++ c ∷ follow in
    Gives-bind _ _
      (entry_new-Gives p queue (2 + (length vs + kb)) (Ready-less _ h (omega arith)) (omega arith))
      (λ p1 h1.
        Gives-bind _ _
          (string_add-Gives p1 queue (1 + (length vs + kb)) (Ready-less _ h1 (omega arith))
            (omega arith) (field name) name (c_string-field name sn) sn.1)
          (λ p2 h2.
            Gives-bind _ _
              (name_of_file-Gives p2 queue (length vs + kb) (Ready-less _ h2 (omega arith))
                (omega arith))
              (λ p3 h3.
                Gives-both (next_word p3) (λ b. read_values values_max (or_last (field name) b)) _
                  (values-Gives vs 32 (field name) c follow _ kb p3 all le cl more (omega arith) h3)
                  (λ p4 h4.
                    Gives-bind _ _ (block p4 h4)
                      (λ p5 h5. Gives-bind _ _ (tail p5 h5) (λ p6 h6. returns h6))))))
