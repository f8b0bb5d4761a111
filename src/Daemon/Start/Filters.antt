-- ===== src/Daemon/Start/Filters.antt =====
-- The filter that the calls of snprintf in `service_start` write for a device.
use bootd.Base.{
  ℕ, zero, suc, ◌-◌, ◌≡◌, refl, sym, ap, ◌∙◌, List, [], ◌∷◌, ◌++◌, if◌then◌else◌, Text, codes,
  arith, length, take, strcmp_eq,
}
use mathlib.Core.List.{append-nil, append_assoc}
use bootd.Server.State.{Service}
use bootd.Server.System.{System}
use bootd.Services.Ids
use bootd.Services.Ids.{allows}
use bootd.Devices.{Device}
use bootd.Daemon.Start.{filter_max, names_read, first_filter, or_filter}

-- The filters of the services that name a device, in the order of the services and their names.
abbrev pub hits : Text → (filter : Text) → List Text → List Text
hits name filter [] = []
hits name filter (x ∷ xs) =
    let rest = hits name filter xs in if strcmp_eq name x then filter ∷ rest else rest

abbrev pub filters_for : Text → List Service → List Text
filters_for name [] = []
filters_for name (s ∷ ss) =
    let rest = filters_for name ss in
    if allows s.id Ids.listen_link then hits name s.filter (names_read s) ++ rest else rest

abbrev pub joined : List Text → Text
joined [] = []
joined (f ∷ fs) = codes " or " ++ (f ++ joined fs)

-- The filter of a device that had none: its ethernet address and all filters, cut to the buffer.
abbrev pub filter_for : System → Device → List Text → Text
filter_for sys d [] = []
filter_for sys d (f ∷ fs) =
    take filter_max
      (codes "(ether dst " ++ (sys.ether_ntoa d.eth ++ (codes ")" ++ joined (f ∷ fs))))

take-append-take {ℓ} :
    {A : Type ℓ} (n : ℕ) (xs ys : List A)
    → take n xs ++ take (n - length (take n xs)) ys ≡ take n (xs ++ ys)
take-append-take zero xs ys = refl
take-append-take (suc n) [] ys = let e : suc n - 0 ≡ suc n = omega arith in ap (λ m. take m ys) e
take-append-take (suc n) (x ∷ xs) ys =
    let k = length (take n xs) in
    let e : suc n - suc k ≡ n - k = omega arith in
    ap (λ m. x ∷ (take n xs ++ take m ys)) e ∙ ap (λ t. x ∷ t) (take-append-take n xs ys)

module _ (sys : System) where
  -- The calls for one device
  abbrev pub with_filters : List Text → Device → Device
  with_filters [] d = d
  with_filters (f ∷ fs) d = with_filters fs (or_filter sys f d)

  pub with_filters-append :
      (fs gs : List Text) (d : Device)
      → with_filters (fs ++ gs) d ≡ with_filters gs (with_filters fs d)
  with_filters-append [] gs d = refl
  with_filters-append (f ∷ fs) gs d = with_filters-append fs gs (or_filter sys f d)

  or_filter-more :
      (c : ℕ) (front f : Text) (d : Device)
      → d.filter ≡ take filter_max (c ∷ front)
      → (or_filter sys f d).filter ≡ take filter_max (c ∷ (front ++ (codes " or " ++ f)))
  unfolding or_filter
  or_filter-more c front f d e =
      simp e (take-append-take filter_max (c ∷ front) (codes " or " ++ f))

  with_filters-more :
      (c : ℕ) (front : Text) (fs : List Text) (d : Device)
      → d.filter ≡ take filter_max (c ∷ front)
      → (with_filters fs d).filter ≡ take filter_max (c ∷ (front ++ joined fs))
  with_filters-more c front [] d e = e ∙ ap (λ t. take filter_max (c ∷ t)) (sym (append-nil front))
  with_filters-more c front (f ∷ fs) d e =
      with_filters-more c (front ++ (codes " or " ++ f)) fs (or_filter sys f d)
        (or_filter-more c front f d e)
      ∙ ap (λ t. take filter_max (c ∷ t)) (append_assoc front (codes " or " ++ f) (joined fs))

  -- The first filter for a device
  or_filter-first :
      (f : Text) (d : Device)
      → d.filter ≡ []
      → (or_filter sys f d).filter
        ≡ take filter_max
            (codes "(ether dst " ++ (sys.ether_ntoa d.eth ++ (codes ")" ++ (codes " or " ++ f))))
  unfolding or_filter first_filter
  or_filter-first f d e =
      let eth = sys.ether_ntoa d.eth in
      simp e (
        take-append-take filter_max (codes "(ether dst " ++ (eth ++ codes ")")) (codes " or " ++ f)
        ∙ ap (λ t. take filter_max (codes "(ether dst " ++ t))
            (append_assoc eth (codes ")") (codes " or " ++ f)))

  pub with_filters-filter_for :
      (fs : List Text) (d : Device)
      → d.filter ≡ []
      → (with_filters fs d).filter ≡ filter_for sys d fs
  with_filters-filter_for [] d e = e
  with_filters-filter_for (f ∷ fs) d e =
      let eth = sys.ether_ntoa d.eth in
      let front = codes "ether dst " ++ (eth ++ (codes ")" ++ (codes " or " ++ f))) in
      with_filters-more b'(' front fs (or_filter sys f d) (or_filter-first f d e)
      ∙ ap (λ t. take filter_max (codes "(ether dst " ++ t))
          (append_assoc eth (codes ")" ++ (codes " or " ++ f)) (joined fs))
