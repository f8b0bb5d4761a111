-- ===== src/Host/Files/Named.antt =====
-- `host_file_add` keeps the names of a host's files apart.
use bootd.Base.{
  ℕ, ◌≡◌, refl, Bool, true, false, Option, none, some, List, [], ◌∷◌, ◌++◌, get_elem?, set,
  get_elem?-set, get_elem?-lt, Text, strcasecmp_eq, arith, inl, inr, Bool-cases,
}
use bootd.Server.State.{File, Host, World}
use bootd.Server.Run.{done}
use bootd.Host.Memory.{read_host, write_host}
use bootd.Host.Files.{
  default_file_name, file_name, file_taken, complete, put_file, host_file_add, lacks_path,
  base_name,
}

-- The files have names, and none of them is this one up to case.
abbrev pub Apart : Text → List File → Type 0
Apart name [] = Unit {0}
Apart name (f ∷ fs) =
    (m : Text) × (f.name ≡ some m) × (strcasecmp_eq m name ≡ false) × Apart name fs

-- Each file has a name, and no two names are the same up to case.
abbrev pub FilesOk : List File → Type 0
FilesOk [] = Unit {0}
FilesOk (f ∷ fs) = (m : Text) × (f.name ≡ some m) × Apart m fs × FilesOk fs

Apart-append :
    (m name : Text) (f : File) (fs : List File)
    → f.name ≡ some name
    → strcasecmp_eq name m ≡ false
    → Apart m fs
    → Apart m (fs ++ f ∷ [])
Apart-append m name f [] e d a = (name, e, d, tt)
Apart-append m name f (g ∷ gs) e d (k, ek, dk, a) = (k, ek, dk, Apart-append m name f gs e d a)

-- The walk finds out, and where it finds none the list may get the file.
taken-FilesOk :
    (name : Text) (f : File) (fs : List File)
    → f.name ≡ some name
    → FilesOk fs
    → (b : Bool) × (file_taken name fs ≡ some b) × (b ≡ false → FilesOk (fs ++ f ∷ []))
unfolding file_taken
taken-FilesOk name f [] e ok = (false, refl, λ _. (name, e, tt, tt))
taken-FilesOk name f (g ∷ gs) e (m, em, a, ok) =
    let (b, eb, rest) = taken-FilesOk name f gs e ok in
    elim (Bool-cases (strcasecmp_eq name m)) [
      | inl same ↦ (true, simp (em, same), λ ne. cc)
      | inr other ↦
          (b, simp (em, other, eb), λ eq. (m, em, Apart-append m name f gs e other a, rest eq))
    ]

name-complete : (f : File) (name : Text) → (complete f name).name ≡ some name
name-complete f name = elim (Bool-cases (lacks_path f)) [ inl y ↦ simp y | inr n ↦ simp n ]

-- The host `p`, with files whose names are apart.
abbrev pub Holds : ℕ → World → Type 0
Holds p v = (g : Host) × (get_elem? v.hosts p ≡ some g) × FilesOk g.files

module _ (w : World) (p : ℕ) (h : Host) (eh : get_elem? w.hosts p ≡ some h)
    (ok : FilesOk h.files) where
  put_file-Holds :
      (f : File) (name : Option Text) → (v : World) × (put_file p f name w ≡ done tt v) × Holds p v
  unfolding put_file read_host write_host
  put_file-Holds f none = (w, refl, (h, eh, ok))
  put_file-Holds f (some name) =
      let (b, eb, grown) = taken-FilesOk name (complete f name) h.files (name-complete f name) ok in
      elim (Bool-cases b) [
        | inl taken ↦ (w, simp (eh, eb, taken), (h, eh, ok))
        | inr free ↦ (
          record w { hosts = set w.hosts p (record h { files = h.files ++ complete f name ∷ [] }) },
          simp (eh, eb, free),
          (
            record h { files = h.files ++ complete f name ∷ [] },
            ground (
              arith,
              get_elem?-lt w.hosts p eh,
              get_elem?-set w.hosts p p (record h { files = h.files ++ complete f name ∷ [] }),
            ),
            grown free,
          ),
        )
      ]

  default_file_name-done :
      (f : File) (path : Text) (as' : List Text)
      → f.path ≡ some path
      → (o : Option Text) × (default_file_name f as' w ≡ done o w)
  unfolding default_file_name
  default_file_name-done f path (a ∷ as') e = (some a, refl)
  default_file_name-done f path [] e = elim (Bool-cases (lacks_path f)) [
    | inl y ↦ (none, simp y)
    | inr n ↦ (some (base_name path), simp n (simp e))
  ]

  file_name-done :
      (f : File) (path : Text) (name : Option Text)
      → f.path ≡ some path
      → (o : Option Text) × (file_name f name w ≡ done o w)
  unfolding file_name
  file_name-done f path (some name) e = (some name, refl)
  file_name-done f path none e = default_file_name-done f path f.aliases e

  -- To a host whose files have names that differ, also up to case, `host_file_add` of a file with a
  -- path returns, and leaves it such a host: a file whose name is taken is not added.
  pub host_file_add-FilesOk :
      (f : File) (path : Text)
      → f.path ≡ some path
      → (v : World) × (host_file_add p f w ≡ done tt v) × Holds p v
  unfolding host_file_add
  host_file_add-FilesOk f path e =
      let (name, run) = file_name-done f path f.name e in
      let (v, run', holds) = put_file-Holds f name in (v, simp (run, run'), holds)
