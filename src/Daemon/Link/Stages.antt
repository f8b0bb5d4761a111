-- ===== src/Daemon/Link/Stages.antt =====
-- The steps of `listener_new_link`, and which handles they hold open.
use bootd.Base.{
  ℕ, suc, ◌≡◌, ◌∙◌, ap, refl, inl, inr, Bool, true, false, Option, none, some, List, ◌∷◌, ◌==◌,
  arith, Text, Bool-cases, Option-cases,
}
use bootd.Daemon.Link.{
  LinkLibrary, Setup, called, close_handle, lnet_opened, init_addr, init_addr_of, hwaddr_found,
  init_pcap, pcap_opened, pcap_configured, nonblock_flags, ioctl_set, fcntl_nonblock, init_filter,
  filter_on, net_found, filter_compiled, dlt_en10mb,
}
use bootd.Daemon.Link.New.{close_lnet, close_pcap, link_cleanup, or_cleanup, Held, held_by}

-- Where the set-up stands: which handles of its own it holds beyond those held before.
pub record Stage (held : Held) (lnet pcap : Option ℕ) (s : Setup) : Type 0 where
  pub lnet_is : s.lnet ≡ lnet
  pub pcap_is : s.pcap ≡ pcap
  pub lnets : s.open_lnets ≡ elim lnet [ none ↦ held.lnets | some h ↦ h ∷ held.lnets ]
  pub pcaps : s.open_pcaps ≡ elim pcap [ none ↦ held.pcaps | some h ↦ h ∷ held.pcaps ]

close_handle_self : (h : ℕ) (xs : List ℕ) → close_handle h (h ∷ xs) ≡ xs
close_handle_self h xs = ground arith

-- The clean-up closes exactly the handles of the set-up.
link_cleanup-held :
    (held : Held) (lnet pcap : Option ℕ) (s : Setup)
    → Stage held lnet pcap s
    → held_by (link_cleanup s) ≡ held
unfolding link_cleanup close_lnet close_pcap
link_cleanup-held held none none s t = simp (t.lnet_is, t.pcap_is, t.lnets, t.pcaps)
link_cleanup-held held none (some g) s t =
    simp (t.lnet_is, t.pcap_is, t.lnets, t.pcaps, close_handle_self)
link_cleanup-held held (some h) none s t =
    simp (t.lnet_is, t.pcap_is, t.lnets, t.pcaps, close_handle_self)
link_cleanup-held held (some h) (some g) s t =
    simp (t.lnet_is, t.pcap_is, t.lnets, t.pcaps, close_handle_self)

-- The parts that a stage is about are as they were.
abbrev SameHandles : Setup → Setup → Type 0
SameHandles s u =
    (u.lnet ≡ s.lnet)
    × (u.pcap ≡ s.pcap)
    × (u.open_lnets ≡ s.open_lnets)
    × (u.open_pcaps ≡ s.open_pcaps)

Stage-same :
    (held : Held) (lnet pcap : Option ℕ) (s u : Setup)
    → SameHandles s u
    → Stage held lnet pcap s
    → Stage held lnet pcap u
Stage-same held lnet pcap s u e t = record {
  lnet_is = e.0 ∙ t.lnet_is;
  pcap_is = e.1 ∙ t.pcap_is;
  lnets = e.2 ∙ t.lnets;
  pcaps = e.3 ∙ t.pcaps;
}

-- What `listener_new_link` comes to: no listener and no handle more, or a listener with a name and
-- one open handle of each kind.
abbrev pub SetUp : Held → Bool × Setup → Type 0
SetUp held (false, s) = held_by s ≡ held
SetUp held (true, s) = (h g : ℕ) × (n : Text) × Stage held (some h) (some g) s × (s.name ≡ some n)

-- A step that failed is cleaned up behind; one that worked is followed by the next.
or_cleanup-SetUp :
    (held : Held) (lnet pcap : Option ℕ) (r : Bool × Setup) (next : Setup → Bool × Setup)
    → Stage held lnet pcap r.1
    → (r.0 ≡ true → SetUp held (next r.1))
    → SetUp held (or_cleanup r next)
unfolding or_cleanup
or_cleanup-SetUp held lnet pcap (false, s) next t h = link_cleanup-held held lnet pcap s t
or_cleanup-SetUp held lnet pcap (true, s) next t h = h refl

abbrev SameNamed : Setup → Setup → Type 0
SameNamed s u = SameHandles s u × (u.name ≡ s.name)

module _ (lib : LinkLibrary) where
  filter_on-same :
      (device : Text) (filter : Option Text) (g : ℕ) (s : Setup)
      → SameNamed s (filter_on lib device g filter s).1
  unfolding filter_on net_found filter_compiled
  filter_on-same device none g s = ((refl, refl, refl, refl), refl)
  filter_on-same device (some f) g s = elim (Option-cases (lib.pcap_lookupnet s.calls device)) [
    | inl e ↦ simp e ((refl, refl, refl, refl), refl)
    | inr (mask, e) ↦ elim (Option-cases (lib.pcap_compile (suc s.calls) g f mask)) [
      | inl e' ↦ simp (e, e') ((refl, refl, refl, refl), refl)
      | inr (p, e') ↦ simp (e, e') ((refl, refl, refl, refl), refl)
    ]
  ]

  nonblock_flags-same :
      (fd on : ℕ) (o : Option ℕ) (s : Setup) → SameNamed s (nonblock_flags lib fd on o s).1
  unfolding nonblock_flags
  nonblock_flags-same fd on none s = ((refl, refl, refl, refl), refl)
  nonblock_flags-same fd on (some flags) s = ((refl, refl, refl, refl), refl)

  pcap_configured-same : (g : ℕ) (s : Setup) → SameNamed s (pcap_configured lib g s)
  unfolding pcap_configured ioctl_set fcntl_nonblock
  pcap_configured-same g s =
      let fd = lib.pcap_fileno s.calls g in
      let t = record s { calls = suc (suc (suc (suc (suc s.calls)))); fd = fd } in
      nonblock_flags-same fd 1 (lib.fcntl_getfl (suc (suc (suc (suc s.calls)))) fd) t

  init_addr_of-same : (h : ℕ) (s : Setup) → SameHandles s (init_addr_of lib h s)
  unfolding init_addr_of hwaddr_found
  init_addr_of-same h s = elim (Option-cases (lib.libnet_get_hwaddr s.calls h)) [
    | inl e ↦ simp e (refl, refl, refl, refl)
    | inr (eth, e) ↦ simp e (refl, refl, refl, refl)
  ]

  module _ (held : Held) (device : Text) (filter : Option Text) where
    filter-SetUp :
        (h g : ℕ) (n : Text) (s : Setup)
        → Stage held (some h) (some g) s
        → s.name ≡ some n
        → SetUp held (or_cleanup (init_filter lib device filter s) (λ d. (true, d)))
    unfolding init_filter
    filter-SetUp h g n s t en =
        let (same, en') = filter_on-same device filter g s in
        simp t.pcap_is (
          or_cleanup-SetUp held (some h) (some g) (filter_on lib device g filter s) (λ d. (true, d))
            (Stage-same held _ _ s _ same t)
            (λ _. (h, g, n, Stage-same held _ _ s _ same t, en' ∙ en)))

    -- Behind `pcap_open_live`
    pcap-SetUp :
        (h : ℕ) (n : Text) (o : Option ℕ) (s : Setup)
        → Stage held (some h) none s
        → s.name ≡ some n
        → SetUp held (
            or_cleanup
              (pcap_opened lib o s)
              (λ c. or_cleanup (init_filter lib device filter c) (λ d. (true, d))))
    unfolding pcap_opened
    pcap-SetUp h n none s t en = or_cleanup-SetUp held (some h) none (false, s) _ t (λ e. cc)
    pcap-SetUp h n (some g) s t en =
        let next : Setup → Bool × Setup =
          λ c. or_cleanup (init_filter lib device filter c) (λ d. (true, d)) in
        let dlt = lib.pcap_datalink s.calls g in
        let u = record (called s) { pcap = some g; dlt = dlt; open_pcaps = g ∷ s.open_pcaps } in
        let back = record u { pcap = none; dlt = 0; open_pcaps = close_handle g u.open_pcaps } in
        let now : Stage held (some h) (some g) u = record {
          lnet_is = t.lnet_is;
          pcap_is = refl;
          lnets = t.lnets;
          pcaps = ap (λ xs. g ∷ xs) t.pcaps;
        } in
        let closed : Stage held (some h) none back = record {
          lnet_is = t.lnet_is;
          pcap_is = refl;
          lnets = t.lnets;
          pcaps = close_handle_self g s.open_pcaps ∙ t.pcaps;
        } in
        let (same, en') = pcap_configured-same g u in
        let ready = Stage-same held _ _ u _ same now in
        elim (Bool-cases (dlt == dlt_en10mb)) [
          | inl y ↦ simp y (
              or_cleanup-SetUp held (some h) (some g) (true, pcap_configured lib g u) next ready
                (λ e. filter-SetUp h g n (pcap_configured lib g u) ready (en' ∙ en)))
          | inr other ↦
              simp other (or_cleanup-SetUp held (some h) none (false, back) next closed (λ e. cc))
        ]

    -- Behind `i_listener_link_init_lnet`
    pub lnet-SetUp :
        (o : Option ℕ) (s : Setup)
        → Stage held none none s
        → SetUp held (
            or_cleanup (lnet_opened lib o s) (λ a. or_cleanup (init_addr lib a) (λ b.
              or_cleanup
                (init_pcap lib device b)
                (λ c. or_cleanup (init_filter lib device filter c) (λ d. (true, d))))))
    unfolding lnet_opened or_cleanup init_addr init_addr_of init_pcap
    lnet-SetUp none s t = link_cleanup-held held none none s t
    lnet-SetUp (some h) s t =
        let a = record s { lnet = some h; open_lnets = h ∷ s.open_lnets } in
        let now : Stage held (some h) none a = record {
          lnet_is = refl;
          pcap_is = t.pcap_is;
          lnets = ap (λ xs. h ∷ xs) t.lnets;
          pcaps = t.pcaps;
        } in
        let b = init_addr_of lib h a in
        let ready = Stage-same held _ _ a b (init_addr_of-same h a) now in
        pcap-SetUp h _ (lib.pcap_open_live b.calls device) (called b)
          (Stage-same held _ _ b (called b) (refl, refl, refl, refl) ready) refl
