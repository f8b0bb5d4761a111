-- ===== src/Util/Walk/Found.antt =====
-- The lookups in a list of hosts that ends: they return the first host that fits.
use bootd.Base.{
  ℕ, zero, suc, ◌≤◌, ◌<◌, ◌≡◌, ◌≢◌, refl, Bool, true, false, Option, none, some, List, [], ◌∷◌,
  arith, ◌==◌, if◌then◌else◌, length, get_elem?, Text, strcmp_eq, strcasecmp_eq, ◌⊎◌, inl, inr,
  Bool-cases,
}
use bootd.Server.State.{EtherAddr, IpAddr, Host, World}
use bootd.Server.Run.{done}
use bootd.Util.Walk.{
  walk, all_rounds, has_name, has_ether, has_ip, util_name2host, util_ether2host, util_ip2host,
}

-- From `p` the `next` pointers lead through these hosts, each with its address, to null.
abbrev pub IsChain : List Host → Option ℕ → List (ℕ × Host) → Type 0
IsChain hosts p [] = p ≡ none
IsChain hosts p ((i, h) ∷ xs) =
    (p ≡ some i) × (get_elem? hosts i ≡ some h) × IsChain hosts h.next xs

abbrev pub AllNamed : List (ℕ × Host) → Type 0
AllNamed [] = Unit {0}
AllNamed ((i, h) ∷ xs) = (h.name ≢ none) × AllNamed xs

-- The registered hosts in the order of the list. They lie in the arena, so there are no more of
-- them than it holds; each has a name.
pub record IsRegistry (w : World) (xs : List (ℕ × Host)) : Type 0 where
  pub chain : IsChain w.hosts w.g_hosts xs
  pub room : length xs ≤ length w.hosts
  pub named : AllNamed xs

-- The first host of the list that passes a test.
abbrev pub first_host : (Host → Bool) → List (ℕ × Host) → Option ℕ
first_host test [] = none
first_host test ((i, h) ∷ xs) = if test h then some i else first_host test xs

-- The name is there, and is the same up to case.
abbrev pub named_as : Text → Host → Bool
named_as name h = elim h.name [ none ↦ false | some n ↦ strcasecmp_eq name n ]

-- On the hosts of the list the test reads no null pointer, and is the plain one.
abbrev Agree : (Host → Option Bool) → (Host → Bool) → List (ℕ × Host) → Type 0
Agree test plain [] = Unit {0}
Agree test plain ((i, h) ∷ xs) = (test h ≡ some (plain h)) × Agree test plain xs

walk-first_host :
    (test : Host → Option Bool) (plain : Host → Bool) (w : World) (p : Option ℕ) (fuel : ℕ)
    (xs : List (ℕ × Host))
    → IsChain w.hosts p xs
    → length xs < fuel
    → Agree test plain xs
    → walk test fuel p w ≡ done (first_host plain xs) w
unfolding walk
walk-first_host test plain w p zero xs c lt same = elim lt [ ]
walk-first_host test plain w p (suc fuel) [] c lt same = rw c
walk-first_host test plain w p (suc fuel) ((i, h) ∷ xs) c lt same =
    ground (arith, walk-first_host test plain w h.next fuel xs c.2)

Agree-name :
    (name : Text) (xs : List (ℕ × Host)) → AllNamed xs → Agree (has_name name) (named_as name) xs
unfolding has_name
Agree-name name [] n = tt
Agree-name name ((i, h) ∷ xs) n = (ground arith, Agree-name name xs n.1)

Agree-plain : (plain : Host → Bool) (xs : List (ℕ × Host)) → Agree (λ h. some (plain h)) plain xs
Agree-plain plain [] = tt
Agree-plain plain ((i, h) ∷ xs) = (refl, Agree-plain plain xs)

module _ {w : World} {xs : List (ℕ × Host)} (r : IsRegistry w xs) where
  -- In a registry that ends, whose hosts have names, `util_name2host` returns the first host of
  -- that name, up to case.
  pub name2host-first :
      (name : Text) → util_name2host name w ≡ done (first_host (named_as name) xs) w
  unfolding util_name2host
  name2host-first name =
      walk-first_host (has_name name) (named_as name) w w.g_hosts (all_rounds w) xs r.chain
        (omega (arith, r.room)) (Agree-name name xs r.named)

  -- In a registry that ends `util_ether2host` returns the first host with that ethernet address.
  pub ether2host-first :
      (eth : EtherAddr) → util_ether2host eth w ≡ done (first_host (λ h. strcmp_eq h.eth eth) xs) w
  unfolding util_ether2host has_ether
  ether2host-first eth =
      walk-first_host _ (λ h. strcmp_eq h.eth eth) w w.g_hosts (all_rounds w) xs r.chain
        (omega (arith, r.room)) (Agree-plain _ xs)

  -- In a registry that ends `util_ip2host` returns the first host with that IP address.
  pub ip2host-first : (ip : IpAddr) → util_ip2host ip w ≡ done (first_host (λ h. ip == h.ip) xs) w
  unfolding util_ip2host has_ip
  ip2host-first ip =
      walk-first_host _ (λ h. ip == h.ip) w w.g_hosts (all_rounds w) xs r.chain
        (omega (arith, r.room)) (Agree-plain _ xs)

-- The first host of the list that passes a test, as the host itself.
abbrev pub host_of : (Host → Bool) → List (ℕ × Host) → Option Host
host_of test [] = none
host_of test ((i, h) ∷ xs) = if test h then some h else host_of test xs

-- Both name the same host, or none; and its pointer leads to it.
pub first_cases :
    (test : Host → Bool) (hosts : List Host) (p : Option ℕ) (xs : List (ℕ × Host))
    → IsChain hosts p xs
    → ((first_host test xs ≡ none) × (host_of test xs ≡ none))
      ⊎ ((i : ℕ) × (h : Host) × (first_host test xs ≡ some i)
          × (host_of test xs ≡ some h)
          × (get_elem? hosts i ≡ some h)
          × (test h ≡ true))
first_cases test hosts p [] c = inl (refl, refl)
first_cases test hosts p ((i, h) ∷ xs) c = elim (Bool-cases (test h)) [
  | inl y ↦ inr (i, h, simp y, simp y, c.1, y)
  | inr n ↦ elim (first_cases test hosts h.next xs c.2) [
    | inl (e1, e2) ↦ inl (simp (n, e1), simp (n, e2))
    | inr (j, g, e1, e2, e3, e4) ↦ inr (j, g, simp (n, e1), simp (n, e2), e3, e4)
  ]
]
