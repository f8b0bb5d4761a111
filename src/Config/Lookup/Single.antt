-- ===== src/Config/Lookup/Single.antt =====
-- What a lookup of a single value finds, by the entries of its name.
use bootd.Base.{◌≡◌, ◌&&◌, not, Option, none, some, List, [], ◌∷◌, if◌then◌else◌, Text, strcmp_eq}
use bootd.Server.State.{World}
use bootd.Server.Run.{Run, done, exited}
use bootd.Config.Parser.{Entries, end, unset, entry}
use bootd.Config.Lookup.{Get}

-- A list whose last pointer was written
abbrev pub IsList : Entries → Type 0
IsList end = Unit {0}
IsList unset = ⊥
IsList (entry name values sub processed next) = IsList next

-- The values of the entries of a name that are not yet marked
abbrev pub unmarked : Text → Entries → List (List Text)
unmarked wanted end = []
unmarked wanted unset = []
unmarked wanted (entry name values sub processed next) =
    if not processed && strcmp_eq wanted name
    then values ∷ unmarked wanted next
    else unmarked wanted next

-- What a lookup comes to, by the values of those entries
abbrev GetOf : Text → List (List Text) → Option Get → Type 0
GetOf wanted vss none = ⊥
GetOf wanted vss (some none) = vss ≡ []
GetOf wanted vss (some (some (f, marked))) =
    (rest : List (List Text)) × (vss ≡ f.values ∷ rest)
    × (unmarked wanted marked ≡ rest)
    × IsList marked

-- What `i_get_entry_single_value` comes to, by the values of the entries of the name: nothing
-- without an entry, the value of the one entry, where it has one value, an error otherwise.
abbrev pub ValueOf :
    Text → Entries → World → List (List Text) → Run (Option Text × Entries) → Type 0
ValueOf wanted root w [] r = r ≡ done (none, root) w
ValueOf wanted root w ((v ∷ []) ∷ []) r =
    (marked : Entries) × (r ≡ done (some v, marked) w)
    × (unmarked wanted marked ≡ [])
    × IsList marked
ValueOf wanted root w ([] ∷ vss) r = r ≡ exited w
ValueOf wanted root w ((v ∷ (v2 ∷ vs)) ∷ vss) r = r ≡ exited w
ValueOf wanted root w ((v ∷ []) ∷ (vs2 ∷ vss)) r = r ≡ exited w
