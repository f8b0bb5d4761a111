-- ===== src/Config/Lookup.antt =====
-- `parse_entry_get` of src/parse.c and the lookups of src/conf.c. An entry that was looked up is
-- marked as processed: each function returns the entries as it leaves them. The block of a marked
-- entry is not reached again, so marks within it stay with the code that evaluates the block.
pub mod Loop
pub mod Single
use bootd.Base.{
  ℕ, zero, suc, Bool, true, ◌&&◌, not, Option, none, some, List, [], ◌∷◌, if◌then◌else◌, Text,
  strcmp_eq,
}
use bootd.Server.Run.{Cmd, hang, pure, need, log_err, ◌>>=◌, ◌>>◌}
use bootd.Config.Parser.{Entries, end, unset, entry}

-- An entry that was found.
pub record Found : Type 0 where
  pub name : Text
  pub values : List Text
  pub sub : Entries

-- What a lookup comes to: nothing, or an entry and the entries with it marked.
abbrev pub Get : Type 0
Get = Option (Found × Entries)

-- A null name fits each entry.
abbrev pub fits : Option Text → Text → Bool
fits none name = true
fits (some wanted) name = strcmp_eq wanted name

-- Behind an entry that does not fit
abbrev pub behind : Text → List Text → Entries → Bool → Option Get → Option Get
behind name values sub processed none = none
behind name values sub processed (some none) = some none
behind name values sub processed (some (some (f, next))) =
    some (some (f, entry name values sub processed next))

-- `parse_entry_get` and `processed = 1`; the outer `none` is a read through a pointer that was
-- never written. All names are shorter than `PARSE_STRING_MAX`.
unfoldable pub entry_get : Option Text → Entries → Option Get
entry_get wanted end = some none
entry_get wanted unset = none
entry_get wanted (entry name values sub processed next) =
    let rest = entry_get wanted next in
    if not processed && fits wanted name
    then some
        (some (record { name = name; values = values; sub = sub }, entry name values sub true next))
    else behind name values sub processed rest

unfoldable pub assure_none : Get → Cmd (Unit {0})
assure_none none = pure tt
assure_none (some x) = log_err

-- `i_assure_no_entry`
unfoldable pub assure_no_entry : Option Text → Entries → Cmd (Unit {0})
unfolding entry_get assure_none
assure_no_entry wanted root = do found ← need (entry_get wanted root); assure_none found

-- The single value of an entry, an error if it has none or more
unfoldable pub the_value : List Text → Cmd Text
the_value [] = log_err
the_value (v ∷ []) = pure v
the_value (v ∷ (v2 ∷ vs)) = log_err

unfoldable pub found_value : Text → (single : Bool) → Entries → Get → Cmd (Option Text × Entries)
unfolding assure_no_entry the_value
found_value wanted single root none = pure (none, root)
found_value wanted single root (some (f, marked)) = do
  if single then assure_no_entry (some wanted) marked else pure tt
  v ← the_value f.values
  pure (some v, marked)

-- `i_get_entry_single_value` with a name: the value, and the entries behind the lookup
unfoldable pub single_value : Text → (single : Bool) → Entries → Cmd (Option Text × Entries)
unfolding entry_get found_value
single_value wanted single root = do
  found ← need (entry_get (some wanted) root)
  found_value wanted single root found

-- `i_get_entry_single_value` without a name: the entry itself, where it has one value
unfoldable pub own_value : List Text → Option Text
own_value [] = none
own_value (v ∷ []) = some v
own_value (v ∷ (v2 ∷ vs)) = none

module _ {S : Type 0} where
  -- A round of such a loop
  abbrev pub looped :
      (Found → S → Cmd S)
      → (Entries → S → Cmd (S × Entries))
      → Entries
      → S
      → Get
      → Cmd (S × Entries)
  looped body next root s none = pure (s, root)
  looped body next root s (some (f, marked)) = do s2 ← body f s; next marked s2

  -- `while ((e = parse_entry_get(root, name)) != NULL) { e->processed = 1; … }`
  unfoldable pub while_get :
      (fuel : ℕ) → Text → (Found → S → Cmd S) → Entries → S → Cmd (S × Entries)
  while_get zero wanted body root s = λ w. hang
  while_get (suc n) wanted body root s = do
    found ← need (entry_get (some wanted) root)
    looped body (while_get n wanted body) root s found

abbrev pub entry_count : Entries → ℕ
entry_count end = 0
entry_count unset = 0
entry_count (entry name values sub processed next) = suc (entry_count next)

-- A loop of this kind, with fuel for every entry
unfoldable pub each_get :
    {S : Type 0} → Text → (Found → S → Cmd S) → Entries → S → Cmd (S × Entries)
unfolding while_get
each_get wanted body root s = while_get (suc (entry_count root)) wanted body root s
