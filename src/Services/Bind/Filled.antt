-- ===== src/Services/Bind/Filled.antt =====
-- What the places of a service hold behind the addresses of a device.
use mathlib.Core.List.{append_assoc, append-nil}
use bootd.Base.{
  ℕ, zero, suc, ◌+◌, ◌-◌, ◌≤◌, ◌<◌, ◌≡◌, refl, sym, ap, ◌∙◌, inl, inr, Bool, true, false,
  Bool-cases, ◌&&◌, List, [], ◌∷◌, ◌++◌, leb, ltb, if◌then◌else◌, length, length-append, take,
  arith,
}
use bootd.Server.State.{IpAddr, SockAddr, Service}
use bootd.Util.Resolve.{util_ip_valid}
use bootd.Devices.{Device}
use bootd.Services.Bind.{udp_ip_add, udp_ips_add, udp_device_add}

-- The addresses in use, with the port
abbrev pub wanted : List IpAddr → (port : ℕ) → List SockAddr
wanted [] port = []
wanted (ip ∷ ips) port =
    if util_ip_valid ip
    then record { addr = ip; port = port } ∷ wanted ips port
    else wanted ips port

-- What the places hold behind the addresses `xs`, and whether all found a place
abbrev fill_places : Service → List SockAddr → Bool × Service
fill_places s xs = (
  leb (length s.bindaddr + length xs) 16,
  record s { bindaddr = s.bindaddr ++ take (16 - length s.bindaddr) xs },
)

take-nil : (n : ℕ) → take {A = SockAddr} n [] ≡ []
take-nil zero = refl
take-nil (suc n) = refl

fill_places-nil : (s : Service) → length s.bindaddr ≤ 16 → fill_places s [] ≡ (true, s)
fill_places-nil s h =
    let same : s.bindaddr ++ take (16 - length s.bindaddr) [] ≡ s.bindaddr =
      ap (λ t. s.bindaddr ++ t) (take-nil _) ∙ append-nil s.bindaddr in
    let fits : leb (length s.bindaddr + length {A = SockAddr} []) 16 ≡ true = ground arith in
    ap (λ b. (b, record s { bindaddr = s.bindaddr ++ take (16 - length s.bindaddr) [] })) fits
    ∙ ap (λ t. (true, record s { bindaddr = t })) same

fill_places-room :
    (s : Service) (x : SockAddr) (xs : List SockAddr)
    → length s.bindaddr < 16
    → fill_places (record s { bindaddr = s.bindaddr ++ x ∷ [] }) xs ≡ fill_places s (x ∷ xs)
fill_places-room s x xs h =
    let longer : length (s.bindaddr ++ x ∷ []) ≡ suc (length s.bindaddr) =
      omega (arith, length-append s.bindaddr (x ∷ [])) in
    let left : 16 - length s.bindaddr ≡ suc (16 - suc (length s.bindaddr)) = omega arith in
    let count : suc (length s.bindaddr) + length xs ≡ length s.bindaddr + suc (length xs) =
      omega arith in
    let places : (s.bindaddr ++ x ∷ []) ++ take (16 - length (s.bindaddr ++ x ∷ [])) xs
        ≡ s.bindaddr ++ take (16 - length s.bindaddr) (x ∷ xs) =
      append_assoc s.bindaddr (x ∷ []) _
      ∙ ap (λ n. s.bindaddr ++ x ∷ take (16 - n) xs) longer
      ∙ ap (λ n. s.bindaddr ++ take n (x ∷ xs)) (sym left) in
    ap
      (λ n. (
        leb (n + length xs) 16,
        record s {
          bindaddr = (s.bindaddr ++ x ∷ []) ++ take (16 - length (s.bindaddr ++ x ∷ [])) xs;
        },
      ))
      longer
    ∙ ap
        (λ n. (
          leb n 16,
          record s {
            bindaddr = (s.bindaddr ++ x ∷ []) ++ take (16 - length (s.bindaddr ++ x ∷ [])) xs;
          },
        ))
        count
    ∙ ap (λ t. (leb (length s.bindaddr + suc (length xs)) 16, record s { bindaddr = t })) places

fill_places-full :
    (s : Service) (x : SockAddr) (xs : List SockAddr)
    → length s.bindaddr ≡ 16
    → (false, (fill_places s xs).1) ≡ fill_places s (x ∷ xs)
fill_places-full s x xs h =
    let none_left : 16 - length s.bindaddr ≡ 0 = omega arith in
    let over : leb (length s.bindaddr + suc (length xs)) 16 ≡ false = ground arith in
    simp (none_left, over)

udp_ip_add-room :
    (s : Service) (ip : IpAddr) (port : ℕ)
    → length s.bindaddr < 16
    → udp_ip_add s ip port
      ≡ (true, record s { bindaddr = s.bindaddr ++ record { addr = ip; port = port } ∷ [] })
unfolding udp_ip_add
udp_ip_add-room s ip port h = let is : ltb (length s.bindaddr) 16 ≡ true = ground arith in simp is

udp_ip_add-full :
    (s : Service) (ip : IpAddr) (port : ℕ)
    → length s.bindaddr ≡ 16
    → udp_ip_add s ip port ≡ (false, s)
unfolding udp_ip_add
udp_ip_add-full s ip port h = let is : ltb (length s.bindaddr) 16 ≡ false = ground arith in simp is

-- The loop behind its first address
abbrev behind_first : List IpAddr → ℕ → Bool × Service → Bool × Service
behind_first ips port added =
    (added.0 && (udp_ips_add added.1 ips port).0, (udp_ips_add added.1 ips port).1)

udp_ips_add-fills :
    (s : Service) (ips : List IpAddr) (port : ℕ)
    → length s.bindaddr ≤ 16
    → udp_ips_add s ips port ≡ fill_places s (wanted ips port)
udp_ips_add-fills s [] port h = unfold udp_ips_add in sym (fill_places-nil s h)
udp_ips_add-fills s (ip ∷ ips) port h = elim (Bool-cases (util_ip_valid ip)) [
  | inr unused ↦
      let skip : udp_ips_add s (ip ∷ ips) port ≡ udp_ips_add s ips port =
        unfold udp_ips_add in ground arith in
      rw unused (skip ∙ udp_ips_add-fills s ips port h)
  | inl used ↦
      let x : SockAddr = record { addr = ip; port = port } in
      let first : udp_ips_add s (ip ∷ ips) port ≡ behind_first ips port (udp_ip_add s ip port) =
        unfold udp_ips_add in rw used refl in
      elim (Bool-cases (ltb (length s.bindaddr) 16)) [
        | inl room ↦
            let lt : length s.bindaddr < 16 = ground arith in
            rw used (
              first
              ∙ ap (behind_first ips port) (udp_ip_add-room s ip port lt)
              ∙ udp_ips_add-fills (record s { bindaddr = s.bindaddr ++ x ∷ [] }) ips port
                  (omega (arith, length-append s.bindaddr (x ∷ [])))
              ∙ fill_places-room s x (wanted ips port) lt)
        | inr full ↦
            let all_used : length s.bindaddr ≡ 16 = ground arith in
            rw used (
              first
              ∙ ap (behind_first ips port) (udp_ip_add-full s ip port all_used)
              ∙ ap (λ r. (false, r.1)) (udp_ips_add-fills s ips port h)
              ∙ fill_places-full s x (wanted ips port) all_used)
      ]
]

-- The addresses of a device go to the places of a udp service that are left, in their order and
-- with the port; those that find no place are dropped, and then the call fails. An address that is
-- 0 takes no place.
pub udp_device_add-fills :
    (s : Service) (d : Device) (port : ℕ)
    → length s.bindaddr ≤ 16
    → udp_device_add s d port ≡ (
      leb (length s.bindaddr + length (wanted d.ip port)) 16,
      record s { bindaddr = s.bindaddr ++ take (16 - length s.bindaddr) (wanted d.ip port) },
    )
unfolding udp_device_add
udp_device_add-fills s d port h = udp_ips_add-fills s d.ip port h
