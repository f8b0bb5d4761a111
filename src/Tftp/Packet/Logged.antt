-- ===== src/Tftp/Packet/Logged.antt =====
-- The logging of a packet of up to 513 bytes reads and writes within its buffers.
use bootd.Base.{
  ℕ, ◌+◌, ◌-◌, ◌*◌, ◌≤◌, ◌<◌, ◌≡◌, refl, Option, none, some, List, [], ◌∷◌, ◌++◌, ◌==◌, length,
  take, drop, get_elem?-some, Text, arith, inl, inr, Bool-cases, length-append, length-take,
}
use bootd.Server.State.{World}
use bootd.Server.Run.{done}
use bootd.Server.Packet.{u16, slice, slice-some}
use bootd.Tftp.Packet.{
  mode_loop, bounded_512, is_request, tftp_get_filename, tftp_get_mode, tftp_get_errmsg,
  tftp_log_msgpacket,
}
use bootd.Tftp.Packet.Reply.{copy_512-some}

-- A buffer that holds the packet and at least a header, and a packet that fits the server's copies.
pub record Fits (packet : List ℕ) (pktlen : ℕ) : Type 0 where
  pub header : 4 ≤ length packet
  pub inside : pktlen ≤ length packet
  pub short : pktlen ≤ 513

pub u16-some : (p : List ℕ) (i : ℕ) → i + 1 < length p → (n : ℕ) × (u16 p i ≡ some n)
unfolding u16
u16-some p i h =
    let (a, ea) = get_elem?-some p i (omega arith) in
    let (b, eb) = get_elem?-some p (i + 1) h in (a * 256 + b, ground arith)

abbrev acc_length : Option Text → ℕ
acc_length none = 0
acc_length (some acc) = length acc

length-mode_loop :
    (st : Option Text) (bytes : List ℕ) (s : Text)
    → mode_loop st bytes ≡ some s
    → length s ≤ acc_length st + length bytes
unfolding mode_loop
length-mode_loop none [] s h = cc
length-mode_loop (some acc) [] s h = let e : acc ≡ s = cc in rw e (omega arith)
length-mode_loop none (c ∷ cs) s h = elim (Bool-cases (c == 0)) [
  | inl z ↦ omega (arith, length-mode_loop (some []) cs s (ground arith))
  | inr nz ↦ omega (arith, length-mode_loop none cs s (ground arith))
]
length-mode_loop (some acc) (c ∷ cs) s h = elim (Bool-cases (c == 0)) [
  | inl z ↦ let e : acc ≡ s = ground arith in rw e (omega arith)
  | inr nz ↦ omega (
    arith,
    length-append acc (c ∷ []),
    length-mode_loop (some (acc ++ c ∷ [])) cs s (ground arith),
  )
]

bounded_512-some :
    (o : Option Text) (w : World)
    → ((s : Text) → o ≡ some s → length s < 512)
    → bounded_512 o w ≡ done o w
unfolding bounded_512
bounded_512-some none w h = refl
bounded_512-some (some s) w h = ground (arith, h s refl)

module _ {packet : List ℕ} {pktlen : ℕ} (f : Fits packet pktlen) (w : World) (op : ℕ)
    (eo : u16 packet 0 ≡ some op) where
  pub filename_done : (o : Option Text) × (tftp_get_filename packet pktlen w ≡ done o w)
  unfolding tftp_get_filename
  filename_done =
      let (t, e) =
        copy_512-some packet 2 (pktlen - 2) w (omega (arith, f.short))
          (omega (arith, f.inside, f.header)) in
      elim (Bool-cases (is_request op)) [
        | inl y ↦ (some t, simp (eo, y, e))
        | inr n ↦ (none, simp (eo, n))
      ]

  errmsg_done : (o : Option Text) × (tftp_get_errmsg packet pktlen w ≡ done o w)
  unfolding tftp_get_errmsg
  errmsg_done =
      let (t, e) =
        copy_512-some packet 4 (pktlen - 4) w (omega (arith, f.short))
          (omega (arith, f.inside, f.header)) in
      elim (Bool-cases (op == 5)) [
        | inl y ↦ (some t, simp (eo, y, e))
        | inr n ↦ (none, simp (eo, n))
      ]

  mode_done : (o : Option Text) × (tftp_get_mode packet pktlen w ≡ done o w)
  unfolding tftp_get_mode
  mode_done =
      let bytes = take (pktlen - 2) (drop 2 packet) in
      let read : slice packet 2 (pktlen - 2) ≡ some bytes =
        slice-some packet 2 (pktlen - 2) (omega (arith, f.inside, f.header)) in
      let fits : bounded_512 (mode_loop none bytes) w ≡ done (mode_loop none bytes) w =
        bounded_512-some (mode_loop none bytes) w (λ s h. omega (
          arith,
          f.short,
          length-mode_loop none bytes s h,
          length-take (pktlen - 2) (drop 2 packet),
        )) in
      elim (Bool-cases (is_request op)) [
        | inl y ↦ (mode_loop none bytes, simp (eo, y, read, fits))
        | inr n ↦ (none, simp (eo, n))
      ]

-- A packet of at most 513 bytes, in a buffer that holds it and has at least 4 bytes, is logged
-- without a fault, and the logging changes nothing.
pub tftp_log_msgpacket-done :
    {packet : List ℕ} {pktlen : ℕ}
    → Fits packet pktlen
    → (w : World) → tftp_log_msgpacket packet pktlen w ≡ done tt w
unfolding tftp_log_msgpacket
tftp_log_msgpacket-done {packet} {pktlen} f w =
    let (op, eo) = u16-some packet 0 (omega (arith, f.header)) in
    let (n, en) = u16-some packet 2 (omega (arith, f.header)) in
    let (o1, e1) = filename_done f w op eo in
    let (o2, e2) = mode_done f w op eo in let (o3, e3) = errmsg_done f w op eo in ground arith
