-- ===== src/Host/Files.antt =====
-- `host_file_new` and `host_file_add`.
pub mod Named
use bootd.Base.{
  ℕ, Bool, true, false, ◌||◌, Option, none, some, List, [], ◌∷◌, ◌++◌, ◌==◌, if◌then◌else◌, Text,
  codes, strcasecmp_eq,
}
use bootd.Server.State.{File, Host}
use bootd.Server.Run.{Cmd, pure, need, ◌>>=◌, ◌>>◌}
use bootd.Util.Files.{str_is_equal}
use bootd.Host.Memory.{read_host, write_host}

abbrev pub host_file_new : File
host_file_new = record { path = none; name = none; server = none; aliases = []; service = 0 }

-- What stands behind the last `/` of a path, if it has one.
unfoldable pub behind_slash : Text → Option Text
behind_slash [] = none
behind_slash (c ∷ cs) = elim (behind_slash cs) [
  | some t ↦ some t
  | none ↦ if c == b'/' then some cs else none
]

abbrev base_name : Text → Text
base_name path = elim (behind_slash path) [ none ↦ path | some t ↦ t ]

-- Whether the path is there; a null path counts as one.
abbrev lacks_path : File → Bool
lacks_path f = str_is_equal f.path (some (codes "{"))

-- The name of a file without one: its first alias, else the end of its path, if it has one.
unfoldable pub default_file_name : File → List Text → Cmd (Option Text)
default_file_name f (a ∷ as') = pure (some a)
default_file_name f [] =
    if lacks_path f then pure none else (do path ← need f.path; pure (some (base_name path)))

unfoldable pub file_name : File → Option Text → Cmd (Option Text)
file_name f (some name) = pure (some name)
file_name f none = default_file_name f f.aliases

-- The walk to the end of the list: whether a file of that name, up to case, is on the way. `none`
-- where it comes to a null name.
unfoldable pub file_taken : Text → List File → Option Bool
file_taken name [] = some false
file_taken name (n ∷ ns) =
    let rest = file_taken name ns in
    elim n.name [ none ↦ none | some other ↦ if strcasecmp_eq name other then some true else rest ]

-- The file with its name, and with the name for its path if it lacks one.
abbrev complete : File → Text → File
complete f name =
    if lacks_path f
    then record f { name = some name; path = some name }
    else record f { name = some name }

unfoldable pub put_file : ℕ → File → Option Text → Cmd (Unit {0})
put_file p f none = pure tt
put_file p f (some name) = do
  h ← read_host p
  taken ← need (file_taken name h.files)
  if taken then pure tt else write_host p (record h { files = h.files ++ complete f name ∷ [] })

unfoldable pub host_file_add : (p : ℕ) → File → Cmd (Unit {0})
host_file_add p f = do name ← file_name f f.name; put_file p f name
