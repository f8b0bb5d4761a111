-- ===== src/Daemon/Start/Place.antt =====
-- One link service: the place of a device in the list, and its filter.
use bootd.Base.{
  ℕ, zero, suc, ◌≡◌, ◌≢◌, refl, sym, ap, ◌∙◌, inl, inr, true, some, List, [], ◌∷◌, if◌then◌else◌,
  Text, Bool-cases, Option-cases, get_elem?, set, strcmp_eq, strcmp_eq→eq, get_elem?-set_self,
  get_elem?-set_ne, get_elem?-lt,
}
use bootd.Server.State.{World}
use bootd.Server.Run.{done}
use bootd.Server.System.{System}
use bootd.Devices.{Device, Interface, devices_ready, find_name, device_search_by_name}
use bootd.Devices.Distinct.{find_name-set}
use bootd.Daemon.Start.{or_filter, filter_at, filter_device, filter_devices}
use bootd.Daemon.Start.Filters.{hits, with_filters}

-- A device is the first of its name in the list, and this is its place.
pub record Place (ds : List Device) (j : ℕ) (d : Device) : Type 0 where
  pub found : find_name d.name ds ≡ some j
  pub here : get_elem? ds j ≡ some d

find_name-name :
    (x : Text) (ds : List Device) (i : ℕ)
    → find_name x ds ≡ some i
    → (e : Device) × (get_elem? ds i ≡ some e) × (strcmp_eq e.name x ≡ true)
unfolding find_name
find_name-name x [] i h = cc
find_name-name x (n ∷ ns) i h = elim (Bool-cases (strcmp_eq n.name x)) [
  | inl y ↦ let z : zero ≡ i = cc (simp y at h) in (n, rw (sym z) refl, y)
  | inr no_match ↦ elim (Option-cases (find_name x ns)) [
    | inl e ↦ cc (simp (no_match, e) at h)
    | inr (k, e) ↦
        let z : suc k ≡ i = cc (simp (no_match, e) at h) in
        let (d, e1, e2) = find_name-name x ns k e in (d, rw (sym z) e1, e2)
  ]
]

devices_ready-some :
    (interfaces : List Interface) (ds : List Device) (j : ℕ) (d : Device)
    → get_elem? ds j ≡ some d
    → devices_ready interfaces ds ≡ some ds
unfolding devices_ready
devices_ready-some interfaces [] j d h = cc
devices_ready-some interfaces (x ∷ xs) j d h = refl

module _ (sys : System) (filter : Text) where
  -- A device whose filter was written, and the others
  Place-set :
      (ds : List Device) (i j : ℕ) (d e : Device) (x : Text)
      → find_name x ds ≡ some i
      → get_elem? ds i ≡ some e
      → Place ds j d
      → Place
          (set ds i (or_filter sys filter e))
          j
          (if strcmp_eq d.name x then or_filter sys filter d else d)
  unfolding or_filter
  Place-set ds i j d e x fi ge p = elim (Bool-cases (strcmp_eq d.name x)) [
    | inl y ↦
        let ex : d.name ≡ x = strcmp_eq→eq d.name x y in
        let s : some i ≡ some j = sym fi ∙ ap (λ t. find_name t ds) (sym ex) ∙ p.found in
        let ij : i ≡ j = cc in
        let ed : e ≡ d = cc in
        let now : Place (set ds j (or_filter sys filter d)) j (or_filter sys filter d) = record {
          found = find_name-set d.name ds j d (or_filter sys filter d) p.here refl ∙ p.found;
          here = get_elem?-set_self ds j _ (get_elem?-lt ds j p.here);
        } in
        simp (y, ij) (rw ed now)
    | inr n ↦
        let (e', g, y) = find_name-name x ds i fi in
        let apart : i ≢ j = λ h. cc in
        simp n (record {
          found = find_name-set d.name ds i e (or_filter sys filter e) ge refl ∙ p.found;
          here = get_elem?-set_ne ds _ apart ∙ p.here;
        })
  ]

  hits-step :
      (x : Text) (xs : List Text) (d : Device)
      → with_filters sys
          (hits (if strcmp_eq d.name x then or_filter sys filter d else d).name filter xs)
          (if strcmp_eq d.name x then or_filter sys filter d else d)
        ≡ with_filters sys (hits d.name filter (x ∷ xs)) d
  unfolding or_filter
  hits-step x xs d = elim (Bool-cases (strcmp_eq d.name x)) [ inl y ↦ simp y | inr n ↦ simp n ]

  module _ (interfaces : List Interface) where
    pub filter_devices-Place :
        (names : List Text) (ds ds' : List Device) (w v : World) (j : ℕ) (d : Device)
        → filter_devices sys interfaces filter names ds w ≡ done ds' v
        → Place ds j d
        → Place ds' j (with_filters sys (hits d.name filter names) d) × (v ≡ w)
    unfolding filter_devices filter_device filter_at device_search_by_name
    filter_devices-Place [] ds ds' w v j d e p = let same : ds ≡ ds' = cc in (rw (sym same) p, cc)
    filter_devices-Place (x ∷ xs) ds ds' w v j d e p =
        let ready = devices_ready-some interfaces ds j d p.here in
        elim (Option-cases (find_name x ds)) [
          | inl none_found ↦ cc (simp (ready, none_found) at e)
          | inr (i, fi) ↦
              let (f, ge, _) = find_name-name x ds i fi in
              let next = if strcmp_eq d.name x then or_filter sys filter d else d in
              let (q, same) =
                filter_devices-Place xs (set ds i (or_filter sys filter f)) ds' w v j next
                  (simp (ready, fi, ge) at e) (Place-set ds i j d f x fi ge p) in
              (rw (hits-step x xs d) at q, same)
        ]
