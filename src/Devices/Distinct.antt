-- ===== src/Devices/Distinct.antt =====
-- The list that `device_init` builds holds each name once.
use bootd.Base.{
  ℕ, zero, suc, ◌≡◌, ◌≢◌, refl, sym, ap, ◌∙◌, false, Option, none, some, List, [], ◌∷◌, ◌++◌, ◌==◌,
  if◌then◌else◌, length, get_elem?, set, strcmp_eq, strcmp_eq_refl, Text, arith, Bool-cases,
  Option-cases, inl, inr, get_elem?-set_self, get_elem?-set_ne, get_elem?-lt, get_elem?-append,
  ==_iff,
}
use bootd.Util.Resolve.{util_ip_valid}
use bootd.Devices.{
  Device, Address, inet, link, other_family, null_addr, Interface, with_address, put_address,
  device_new, device_add, taken, onward, find_name, init_interface, init_interfaces, is_loopback,
  is_up, is_null, placed,
}

-- Each device is found by its name, at its own place.
abbrev pub Places : List Device → Type 0
Places ds = (j : ℕ) (d : Device) → get_elem? ds j ≡ some d → find_name d.name ds ≡ some j

pub find_name-set :
    (x : Text) (ds : List Device) (i : ℕ) (e e' : Device)
    → get_elem? ds i ≡ some e
    → e'.name ≡ e.name
    → find_name x (set ds i e') ≡ find_name x ds
unfolding find_name
find_name-set x [] i e e' h s = refl
find_name-set x (n ∷ ns) zero e e' h s =
    let same : n ≡ e = cc in
    let names : e'.name ≡ n.name = s ∙ ap (λ d. d.name) (sym same) in
    ap (λ t. if strcmp_eq t x then some 0 else onward (find_name x ns)) names
find_name-set x (n ∷ ns) (suc i) e e' h s =
    ap (λ t. if strcmp_eq n.name x then some 0 else onward t) (find_name-set x ns i e e' h s)

-- Behind the list, a new device is found where its name was not there.
abbrev or_last : Text → List Device → Device → Option ℕ → Option ℕ
or_last x ds d (some i) = some i
or_last x ds d none = if strcmp_eq d.name x then some (length ds) else none

find_name-append :
    (x : Text) (ds : List Device) (d : Device)
    → find_name x (ds ++ d ∷ []) ≡ or_last x ds d (find_name x ds)
unfolding find_name
find_name-append x [] d = elim (Bool-cases (strcmp_eq d.name x)) [ inl y ↦ simp y | inr n ↦ simp n ]
find_name-append x (n ∷ ns) d = elim (Bool-cases (strcmp_eq n.name x)) [
  | inl y ↦ simp y
  | inr off ↦ elim (Option-cases (find_name x ns)) [
    | inr (i, e) ↦ simp (off, e, find_name-append x ns d)
    | inl e ↦ elim (Bool-cases (strcmp_eq d.name x)) [
      | inl y ↦ simp (off, e, y, find_name-append x ns d)
      | inr off' ↦ simp (off, e, off', find_name-append x ns d)
    ]
  ]
]

with_address-name : (a : Address) (d : Device) → (with_address a d).name ≡ d.name
with_address-name (inet ip) d = elim (Bool-cases (util_ip_valid ip)) [
  | inl y ↦ simp y
  | inr n ↦ simp n
]
with_address-name (link eth) d = refl
with_address-name null_addr d = refl
with_address-name other_family d = refl

Places-set :
    (ds : List Device) (i : ℕ) (e e' : Device)
    → get_elem? ds i ≡ some e
    → e'.name ≡ e.name
    → Places ds
    → Places (set ds i e')
Places-set ds i e e' h s p j d g = elim (Bool-cases (i == j)) [
  | inl y ↦
      let ij : i ≡ j = (==_iff i j).0 y in
      let self = get_elem?-set_self ds i e' (get_elem?-lt ds i h) in
      let de : d ≡ e' = cc in
      let names : d.name ≡ e.name = ap (λ x. x.name) de ∙ s in
      find_name-set d.name ds i e e' h s ∙ ap (λ t. find_name t ds) names ∙ p i e h ∙ ap some ij
  | inr n ↦
      let ne : i ≢ j = λ z. cc ((==_iff i j).1 z) in
      let there : get_elem? ds j ≡ some d = sym (get_elem?-set_ne ds e' ne) ∙ g in
      find_name-set d.name ds i e e' h s ∙ p j d there
]

get_elem?-behind :
    (ds : List Device) (d e : Device) (j : ℕ)
    → get_elem? ds j ≡ none
    → get_elem? (ds ++ d ∷ []) j ≡ some e
    → (length ds ≡ j) × (e ≡ d)
get_elem?-behind [] d e zero h g = (refl, cc)
get_elem?-behind [] d e (suc j) h g = cc
get_elem?-behind (x ∷ xs) d e zero h g = cc
get_elem?-behind (x ∷ xs) d e (suc j) h g =
    let (a, b) = get_elem?-behind xs d e j h g in (ap suc a, b)

Places-append :
    (ds : List Device) (d : Device) → find_name d.name ds ≡ none → Places ds → Places (ds ++ d ∷ [])
Places-append ds d new p j e g = elim (Option-cases (get_elem? ds j)) [
  | inr (x, h) ↦
      let more = get_elem?-append ds (d ∷ []) j h in
      let ex : e ≡ x = cc in
      let names : e.name ≡ x.name = ap (λ y. y.name) ex in
      ap (λ t. find_name t (ds ++ d ∷ [])) names
      ∙ find_name-append x.name ds d
      ∙ ap (or_last x.name ds d) (p j x h)
  | inl h ↦
      let (a, b) = get_elem?-behind ds d e j h g in
      let names : e.name ≡ d.name = ap (λ y. y.name) b in
      let self : or_last d.name ds d none ≡ some (length ds) = simp (strcmp_eq_refl d.name) in
      ap (λ t. find_name t (ds ++ d ∷ [])) names
      ∙ find_name-append d.name ds d
      ∙ ap (or_last d.name ds d) new
      ∙ self
      ∙ ap some a
]

taken-find_name : (x : Text) (ds : List Device) → find_name x ds ≡ none → taken x ds ≡ false
unfolding find_name
taken-find_name x [] h = refl
taken-find_name x (n ∷ ns) h = elim (Bool-cases (strcmp_eq n.name x)) [
  | inl y ↦ cc (simp y at h)
  | inr off ↦ elim (Option-cases (find_name x ns)) [
    | inl e ↦ simp (off, taken-find_name x ns e)
    | inr (i, e) ↦ cc (simp (off, e) at h)
  ]
]

-- The list, where there was no fault, has its devices at their places.
abbrev PlacesOf : Option (List Device) → Type 0
PlacesOf none = Unit {0}
PlacesOf (some ds) = Places ds

Places-placed : (ds : List Device) (i : ℕ) (a : Address) → Places ds → Places (placed i a ds)
Places-placed ds i a p = elim (Option-cases (get_elem? ds i)) [
  | inl e ↦ let q : placed i a ds ≡ ds = ground (arith, e) in rw q p
  | inr (d, e) ↦
      let q : placed i a ds ≡ set ds i (with_address a d) = ground (arith, e) in
      rw q (Places-set ds i d (with_address a d) e (with_address-name a d) p)
]

PlacesOf-put : (ds : List Device) (i : ℕ) (a : Address) → Places ds → PlacesOf (put_address i a ds)
PlacesOf-put ds i a p = elim (Bool-cases (is_null a)) [
  | inl y ↦ let q : put_address i a ds ≡ none = simp y in rw q tt
  | inr n ↦
      let q : put_address i a ds ≡ some (placed i a ds) = simp n in rw q (Places-placed ds i a p)
]

init_interface-PlacesOf :
    (n : Interface) (ds : List Device) → Places ds → PlacesOf (init_interface n ds)
init_interface-PlacesOf n ds p = elim (Option-cases (find_name n.name ds)) [
  | inr (i, e) ↦
      let q : init_interface n ds ≡ put_address i n.addr ds =
        unfold init_interface in ground (arith, e) in
      rw q (PlacesOf-put ds i n.addr p)
  | inl e ↦ elim (Bool-cases (is_loopback n)) [
    | inl y ↦
        let q : init_interface n ds ≡ some ds = unfold init_interface in ground (arith, e, y) in
        rw q p
    | inr up ↦ elim (Bool-cases (is_up n)) [
      | inr off ↦
          let q : init_interface n ds ≡ some ds =
            unfold init_interface in ground (arith, e, up, off) in
          rw q p
      | inl on ↦
          let d = device_new n.name in
          let new : device_add d ds ≡ ds ++ d ∷ [] =
            unfold device_add in simp (taken-find_name n.name ds e) in
          let q : init_interface n ds ≡ put_address (length ds) n.addr (device_add d ds) =
            unfold init_interface in ground (arith, e, up, on) in
          rw (q, new) (PlacesOf-put (ds ++ d ∷ []) (length ds) n.addr (Places-append ds d e p))
    ]
  ]
]

init_interfaces-PlacesOf :
    (ns : List Interface) (ds : List Device) → Places ds → PlacesOf (init_interfaces ns ds)
unfolding init_interfaces
init_interfaces-PlacesOf [] ds p = p
init_interfaces-PlacesOf (n ∷ ns) ds p =
    let here = init_interface-PlacesOf n ds p in
    elim (Option-cases (init_interface n ds)) [
      | inl e ↦ let q : init_interfaces (n ∷ ns) ds ≡ none = ground (arith, e) in rw q tt
      | inr (ds', e) ↦
          let q : init_interfaces (n ∷ ns) ds ≡ init_interfaces ns ds' = ground (arith, e) in
          rw q (init_interfaces-PlacesOf ns ds' (rw e at here))
    ]

-- In the list that device_init makes of any interfaces, where none that it looks into has a null
-- address, each device is found by its name, at its own place, so no name stands in it twice.
pub init_interfaces-find_name :
    (ns : List Interface) (ds : List Device) (j : ℕ) (d : Device)
    → init_interfaces ns [] ≡ some ds
    → get_elem? ds j ≡ some d
    → find_name d.name ds ≡ some j
init_interfaces-find_name ns ds j d e g =
    let p = init_interfaces-PlacesOf ns [] (λ i x h. cc) in (rw e at p) j d g
