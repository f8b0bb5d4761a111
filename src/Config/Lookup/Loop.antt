-- ===== src/Config/Lookup/Loop.antt =====
-- The loops over `parse_entry_get`, against a walk of the list.
use bootd.Base.{
  ℕ, zero, suc, ◌≤◌, ◌<◌, ◌≡◌, refl, sym, ap, ◌∙◌, inl, inr, Bool, true, false, Bool-cases, ◌&&◌,
  not, Option, none, some, List, if◌then◌else◌, Text, arith,
}
use bootd.Server.State.{World}
use bootd.Server.Run.{Cmd, Run, done, exited, fault, hang, pure, need, and_then, ◌>>=◌}
use bootd.Config.Parser.{Entries, end, unset, entry}
use bootd.Config.Lookup.{
  Found, Get, fits, behind, entry_get, looped, while_get, entry_count, each_get,
}

module _ {S : Type 0} (wanted : Text) (body : Found → S → Cmd S) where
  abbrev onto : Text → List Text → Entries → Bool → S × Entries → Cmd (S × Entries)
  onto name values sub processed (s, next) = pure (s, entry name values sub processed next)

  -- The entries of a list that is null or ends with a null pointer, in their order: each that
  -- fits and is not yet marked is given to `body` and marked.
  abbrev pub for_each : Entries → S → Cmd (S × Entries)
  for_each end s = pure (s, end)
  for_each unset s = λ w. fault
  for_each (entry name values sub processed next) s =
      if not processed && fits (some wanted) name
      then (do
        s2 ← body (record { name = name; values = values; sub = sub }) s
        x ← for_each next s2
        onto name values sub true x)
      else (do x ← for_each next s; onto name values sub processed x)

  Run-assoc :
      {A : Type 0} (r : Run A) (f : A → Cmd (S × Entries)) (g : S × Entries → Cmd (S × Entries))
      → and_then (and_then r f) g ≡ and_then r (λ a. f a >>= g)
  Run-assoc (done a w) f g = refl
  Run-assoc (exited w) f g = refl
  Run-assoc fault f g = refl
  Run-assoc hang f g = refl

  and_then-ext :
      {A : Type 0} (r : Run A) (f g : A → Cmd (S × Entries))
      → ((a : A) (w : World) → f a w ≡ g a w)
      → and_then r f ≡ and_then r g
  and_then-ext (done a w) f g h = h a w
  and_then-ext (exited w) f g h = refl
  and_then-ext fault f g h = refl
  and_then-ext hang f g h = refl

  entry_get-behind :
      (name : Text) (values : List Text) (sub : Entries) (processed : Bool) (next : Entries)
      → (not processed && fits (some wanted) name) ≡ false
      → entry_get (some wanted) (entry name values sub processed next)
        ≡ behind name values sub processed (entry_get (some wanted) next)
  unfolding entry_get
  entry_get-behind name values sub processed next skip = simp skip

  -- A round of the loop, by what the lookup came to
  abbrev rounds_on : (n : ℕ) → Entries → S → Option Get → Cmd (S × Entries)
  rounds_on n root s none = λ w. fault
  rounds_on n root s (some g) = looped body (while_get n wanted body) root s g

  round_of :
      (n : ℕ) (root : Entries) (s : S) (w : World) (g : Option Get)
      → and_then (need g w) (λ found. looped body (while_get n wanted body) root s found)
        ≡ rounds_on n root s g w
  round_of n root s w none = refl
  round_of n root s w (some g) = refl

  while_get-suc :
      (n : ℕ) (root : Entries) (s : S) (w : World)
      → while_get (suc n) wanted body root s w ≡ rounds_on n root s (entry_get (some wanted) root) w
  unfolding while_get
  while_get-suc n root s w = round_of n root s w (entry_get (some wanted) root)

  rounds_on-behind :
      (n : ℕ) (name : Text) (values : List Text) (sub : Entries) (processed : Bool) (next : Entries)
      → (s : S) (w : World)
      → ((m : Entries) (t : S) (v : World)
          → while_get n wanted body (entry name values sub processed m) t v
            ≡ and_then (while_get n wanted body m t v) (onto name values sub processed))
      → (g : Option Get)
      → rounds_on n (entry name values sub processed next) s (behind name values sub processed g) w
        ≡ and_then (rounds_on n next s g w) (onto name values sub processed)
  rounds_on-behind n name values sub processed next s w ih none = refl
  rounds_on-behind n name values sub processed next s w ih (some none) = refl
  rounds_on-behind n name values sub processed next s w ih (some (some (f, m))) =
      and_then-ext (body f s w) _ _ (λ t v. ih m t v) ∙ sym (Run-assoc (body f s w) _ _)

  -- An entry that is not visited stays in front of what the loop makes of the others.
  while_get-behind :
      (n : ℕ) (name : Text) (values : List Text) (sub : Entries) (processed : Bool)
      → (not processed && fits (some wanted) name) ≡ false
      → (next : Entries) (s : S) (w : World)
      → while_get n wanted body (entry name values sub processed next) s w
        ≡ and_then (while_get n wanted body next s w) (onto name values sub processed)
  while_get-behind zero name values sub processed skip next s w = unfold while_get in refl
  while_get-behind (suc n) name values sub processed skip next s w =
      while_get-suc n _ s w
      ∙ ap (λ g. rounds_on n (entry name values sub processed next) s g w)
          (entry_get-behind name values sub processed next skip)
      ∙ rounds_on-behind n name values sub processed next s w
          (λ m t v. while_get-behind n name values sub processed skip m t v)
          (entry_get (some wanted) next)
      ∙ ap (λ r. and_then r (onto name values sub processed)) (sym (while_get-suc n next s w))

  -- How many entries are to be visited.
  abbrev todo : Entries → ℕ
  todo end = 0
  todo unset = 0
  todo (entry name values sub processed next) =
      if not processed && fits (some wanted) name then suc (todo next) else todo next

  todo-entry_count : (root : Entries) → todo root ≤ entry_count root
  todo-entry_count end = omega arith
  todo-entry_count unset = omega arith
  todo-entry_count (entry name values sub processed next) = ground (arith, todo-entry_count next)

  entry_get-fits :
      (name : Text) (values : List Text) (sub : Entries) (processed : Bool) (next : Entries)
      → (not processed && fits (some wanted) name) ≡ true
      → entry_get (some wanted) (entry name values sub processed next)
        ≡ some (
            some
              (record { name = name; values = values; sub = sub }, entry name values sub true next))
  unfolding entry_get
  entry_get-fits name values sub processed next visit = simp visit

  while_get-for_each :
      (n : ℕ) (root : Entries) (s : S) (w : World)
      → todo root < n
      → while_get n wanted body root s w ≡ for_each root s w
  while_get-for_each zero root s w lt = absurd (omega arith)
  while_get-for_each (suc n) end s w lt = unfold while_get entry_get in refl
  while_get-for_each (suc n) unset s w lt = unfold while_get entry_get in refl
  while_get-for_each (suc n) (entry name values sub processed next) s w lt =
      elim (Bool-cases (not processed && fits (some wanted) name)) [
        | inl visit ↦
            let rest : (t : S) (v : World) → while_get n wanted body next t v ≡ for_each next t v =
              λ t v. while_get-for_each n next t v (ground arith) in
            while_get-suc n _ s w
            ∙ ap (λ g. rounds_on n (entry name values sub processed next) s g w)
                (entry_get-fits name values sub processed next visit)
            ∙ and_then-ext (body (record { name = name; values = values; sub = sub }) s w) _ _
                (λ t v.
                  while_get-behind n name values sub true refl next t v
                  ∙ ap (λ r. and_then r (onto name values sub true)) (rest t v))
            ∙ rw visit refl
        | inr skip ↦
            while_get-behind (suc n) name values sub processed skip next s w
            ∙ ap (λ r. and_then r (onto name values sub processed))
                (while_get-for_each (suc n) next s w (ground arith))
            ∙ rw skip refl
      ]

  -- A loop of this kind visits each entry that fits and is not yet marked once, in the order of the
  -- list, and marks it; it ends unless what it does for an entry does not.
  pub each_get-for_each :
      (root : Entries) (s : S) (w : World) → each_get wanted body root s w ≡ for_each root s w
  unfolding each_get
  each_get-for_each root s w =
      while_get-for_each (suc (entry_count root)) root s w (omega (arith, todo-entry_count root))
