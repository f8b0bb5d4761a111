-- ===== src/Util/Files/Ranked.antt =====
-- `util_name2file` against its reference: the matching files, the better ranks first.
use bootd.Base.{
  ℕ, zero, suc, ◌-◌, ◌≤◌, ◌≡◌, ◌≢◌, refl, sym, ◌∙◌, ap, true, Option, none, some, List, [], ◌∷◌,
  ◌++◌, ◌==◌, if◌then◌else◌, length, get_elem?, Text, arith, ◌⊎◌,
}
use bootd.Server.State.{File, Host}
use bootd.Services.Ids.{allows}
use bootd.Util.Files.{i_file_match, Scan, found, left, scan, rounds, util_name2file}

-- The files of one rank, in the order of the list.
abbrev pub of_rank : ℕ → Option Text → (i : ℕ) → List File → List File
of_rank service name i [] = []
of_rank service name i (n ∷ ns) =
    if i_file_match n service name == i
    then n ∷ of_rank service name i ns
    else of_rank service name i ns

abbrev pub ranked : ℕ → Option Text → List File → List File
ranked service name files =
    of_rank service name 1 files
    ++ (of_rank service name 2 files
        ++ (of_rank service name 3 files ++ of_rank service name 4 files))

abbrev as_scan : Option File → ℕ → Scan
as_scan none k = left k
as_scan (some f) k = found f

scan-of_rank :
    (service : ℕ) (name : Option Text) (i k : ℕ) (files : List File)
    → scan service name i k files
      ≡ as_scan
          (get_elem? (of_rank service name i files) k)
          (k - length (of_rank service name i files))
unfolding scan
scan-of_rank service name i k [] = ap left (omega arith)
scan-of_rank service name i zero (n ∷ ns) = ground (arith, scan-of_rank service name i zero ns)
scan-of_rank service name i (suc k) (n ∷ ns) =
    ground (arith, scan-of_rank service name i k ns, scan-of_rank service name i (suc k) ns)

abbrev or_else : Option File → Option File → Option File
or_else none o = o
or_else (some f) o = some f

get_elem?-append_skip :
    (xs ys : List File) (k : ℕ)
    → get_elem? (xs ++ ys) k ≡ or_else (get_elem? xs k) (get_elem? ys (k - length xs))
get_elem?-append_skip [] ys k = ap (get_elem? ys) (omega arith)
get_elem?-append_skip (x ∷ xs) ys zero = refl
get_elem?-append_skip (x ∷ xs) ys (suc k) =
    let e : suc k - suc (length xs) ≡ k - length xs = omega arith in
    rw e (get_elem?-append_skip xs ys k)

round :
    (k i service : ℕ) (name : Option Text) (skip : ℕ) (files : List File)
    → rounds (suc k) i service name skip files
      ≡ or_else
          (get_elem? (of_rank service name i files) skip)
          (rounds k (suc i) service name (skip - length (of_rank service name i files)) files)
unfolding rounds
round k i service name skip files = ground (arith, scan-of_rank service name i skip files)

or_else-none : (o : Option File) → or_else o none ≡ o
or_else-none none = refl
or_else-none (some f) = refl

-- The lookup returns the `skip`-th file of the reference list, and null behind its end.
pub util_name2file-ranked :
    (h : Host) (service : ℕ) (name : Option Text) (skip : ℕ)
    → util_name2file (some h) service name skip ≡ get_elem? (ranked service name h.files) skip
unfolding util_name2file
util_name2file-ranked h service name skip =
    simp (round 3 1, round 2 2, round 1 3, round 0 4, get_elem?-append_skip)
      (unfold rounds in simp or_else-none)

abbrev pub Among : File → List File → Type 0
Among f [] = ⊥
Among f (n ∷ ns) = (f ≡ n) ⊎ Among f ns

head-append :
    (xs ys : List File) → get_elem? (xs ++ ys) 0 ≡ or_else (get_elem? xs 0) (get_elem? ys 0)
head-append [] ys = refl
head-append (x ∷ xs) ys = refl

module _ (service : ℕ) (name : Option Text) where
  of_rank-Among :
      (i : ℕ) (files : List File) (k : ℕ) (f : File)
      → get_elem? (of_rank service name i files) k ≡ some f
      → Among f files × (i_file_match f service name ≡ i)
  of_rank-Among i [] k f h = cc
  of_rank-Among i (n ∷ ns) zero f h = ground (arith, of_rank-Among i ns zero f)
  of_rank-Among i (n ∷ ns) (suc k) f h =
      ground (arith, of_rank-Among i ns k f, of_rank-Among i ns (suc k) f)

  none-of_rank :
      (i : ℕ) (files : List File) (g : File)
      → get_elem? (of_rank service name i files) 0 ≡ none
      → Among g files
      → i_file_match g service name ≢ i
  none-of_rank i [] g e m = absurd m
  none-of_rank i (n ∷ ns) g e m = ground (arith, none-of_rank i ns g)

  match-le-4 : (f : File) → i_file_match f service name ≤ 4
  unfolding i_file_match
  match-le-4 f = elim name [ none ↦ ground arith | some t ↦ ground arith ]

  match_0_or_allowed :
      (f : File) → i_file_match f service name ≢ 0 → allows f.service service ≡ true
  unfolding i_file_match
  match_0_or_allowed f h = ground arith

  abbrev head_of : ℕ → List File → Option File
  head_of i files = get_elem? (of_rank service name i files) 0

  head-ranked :
      (files : List File)
      → get_elem? (ranked service name files) 0
        ≡ or_else
            (head_of 1 files)
            (or_else (head_of 2 files) (or_else (head_of 3 files) (head_of 4 files)))
  head-ranked files = simp head-append

  best :
      (files : List File) (f g : File)
      → get_elem? (ranked service name files) 0 ≡ some f
      → Among g files
      → i_file_match g service name ≢ 0
      → i_file_match f service name ≤ i_file_match g service name
  best files f g h m nz = ground (
    arith,
    head-ranked files,
    match-le-4 g,
    none-of_rank 1 files g,
    none-of_rank 2 files g,
    none-of_rank 3 files g,
    of_rank-Among 1 files 0 f,
    of_rank-Among 2 files 0 f,
    of_rank-Among 3 files 0 f,
    of_rank-Among 4 files 0 f,
  )

found_in_ranks :
    (service : ℕ) (name : Option Text) (files : List File) (k : ℕ) (f : File)
    → get_elem? (ranked service name files) k ≡ some f
    → Among f files × (i_file_match f service name ≢ 0)
found_in_ranks service name files k f h =
    let l1 = length (of_rank service name 1 files) in
    let l2 = length (of_rank service name 2 files) in
    let l3 = length (of_rank service name 3 files) in
    let a1 = of_rank-Among service name 1 files k f in
    let a2 = of_rank-Among service name 2 files (k - l1) f in
    let a3 = of_rank-Among service name 3 files (k - l1 - l2) f in
    let a4 = of_rank-Among service name 4 files (k - l1 - l2 - l3) f in
    let e = simp get_elem?-append_skip at h in (ground arith, ground arith)

-- A file that the lookup finds is one of the host's, and its mask allows the service.
pub util_name2file_sound :
    (h : Host) (service : ℕ) (name : Option Text) (skip : ℕ) (f : File)
    → util_name2file (some h) service name skip ≡ some f
    → Among f h.files × (allows f.service service ≡ true)
util_name2file_sound h service name skip f e =
    let m =
      found_in_ranks service name h.files skip f
        (sym (util_name2file-ranked h service name skip) ∙ e) in
    (m.0, match_0_or_allowed service name f m.1)

-- The first file found has the best rank: no file of the host that matches has a lower one.
pub util_name2file_best :
    (h : Host) (service : ℕ) (name : Option Text) (f g : File)
    → util_name2file (some h) service name 0 ≡ some f
    → Among g h.files
    → i_file_match g service name ≢ 0
    → i_file_match f service name ≤ i_file_match g service name
util_name2file_best h service name f g e =
    best service name h.files f g (sym (util_name2file-ranked h service name 0) ∙ e)
