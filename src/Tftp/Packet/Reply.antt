-- ===== src/Tftp/Packet/Reply.antt =====
-- What an error reply puts on the wire.
use bootd.Base.{
  ℕ, suc, ◌+◌, ◌-◌, ◌*◌, ◌/◌, ◌%◌, ◌≤◌, ◌<◌, ◌≡◌, refl, ap, some, List, [], ◌∷◌, ◌++◌, length, take,
  drop, Text, arith,
}
use bootd.Server.State.{Listener, SockAddr, World, udp}
use bootd.Server.Run.{done}
use bootd.Server.System.{System}
use bootd.Server.Packet.{
  u16, be16, strncpy_field, take-strncpy_field, c_string_total, slice-some, length-strncpy_field,
}
use bootd.Listener.Send.{send, udp_peer}
use bootd.Tftp.Packet.{copy_512, tftp_log_msgpacket, error_packet, tftp_send_error, tftp_get_errmsg}

-- The world behind one datagram from a udp listener.
abbrev pub datagram : System → World → Listener → SockAddr → List ℕ → World
datagram sys w l to bytes = record w {
  calls = suc w.calls;
  sent = (record { fd = l.fd; to = udp_peer l (some to); bytes = bytes }) ∷ w.sent;
}

-- An ERROR packet: opcode 5, the code, the text and a 0.
abbrev pub error_bytes : ℕ → Text → List ℕ
error_bytes err msg = be16 5 ++ (be16 err ++ (msg ++ 0 ∷ []))

take-error_packet :
    (err : ℕ) (msg : Text)
    → length msg < 511
    → take (5 + length msg) (error_packet err msg) ≡ error_bytes err msg
unfolding error_packet strncpy_field
take-error_packet err msg h =
    let e : 5 + length msg ≡ suc (suc (suc (suc (suc (length msg))))) = omega arith in
    rw e (
      ap (λ t. be16 5 ++ (be16 err ++ t))
        (take-strncpy_field 512 512 msg (omega arith) (omega arith)))

length-error_packet : (err : ℕ) (msg : Text) → length (error_packet err msg) ≡ 516
unfolding error_packet
length-error_packet err msg = omega (arith, length-strncpy_field 512 msg)

pub copy_512-some :
    (packet : List ℕ) (offset n : ℕ) (w : World)
    → n < 512
    → offset + n ≤ length packet
    → (t : Text) × (copy_512 packet offset n w ≡ done t w)
unfolding copy_512
copy_512-some packet offset n w lt le =
    let (t, e) = c_string_total (take n (drop offset packet)) in
    (t, ground (arith, slice-some packet offset n))

error_opcode : (err : ℕ) (msg : Text) → u16 (error_packet err msg) 0 ≡ some 5
unfolding error_packet u16
error_opcode err msg = refl

error_code :
    (err : ℕ) (msg : Text)
    → u16 (error_packet err msg) 2 ≡ some ((err / 256) % 256 * 256 + err % 256)
unfolding error_packet u16
error_code err msg = refl

errmsg_some :
    (err : ℕ) (msg : Text) (w : World)
    → length msg < 511
    → (t : Text) × (tftp_get_errmsg (error_packet err msg) (5 + length msg) w ≡ done (some t) w)
unfolding tftp_get_errmsg
errmsg_some err msg w h =
    let (t, e) =
      copy_512-some (error_packet err msg) 4 (5 + length msg - 4) w (omega arith)
        (omega (arith, length-error_packet err msg)) in
    (t, simp (error_opcode, e))

log-error_packet :
    (err : ℕ) (msg : Text) (w : World)
    → length msg < 511
    → tftp_log_msgpacket (error_packet err msg) (5 + length msg) w ≡ done tt w
unfolding tftp_log_msgpacket
log-error_packet err msg w h =
    let (t, e) = errmsg_some err msg w h in simp (error_opcode, error_code, e)

pub send-datagram :
    (sys : System) (w : World) (l : Listener) (to : SockAddr) (packet : List ℕ) (n : ℕ)
    → l.type ≡ udp
    → send sys l (some to) packet n w
      ≡ done
          (sys.send_to w.calls (udp_peer l (some to)) (take n packet))
          (datagram sys w l to (take n packet))
unfolding send
send-datagram sys w l to packet n t = ground arith

-- An error reply with a text of less than 511 bytes over a udp listener is one datagram to the
-- sender: ERROR, the code, the text and a 0. Nothing else changes.
pub tftp_send_error-datagram :
    (sys : System) (w : World) (l : Listener) (from : SockAddr) (err : ℕ) (msg : Text)
    → l.type ≡ udp
    → length msg < 511
    → tftp_send_error sys l from err msg w ≡ done tt (datagram sys w l from (error_bytes err msg))
unfolding tftp_send_error
tftp_send_error-datagram sys w l from err msg t h = simp (
  log-error_packet err msg w h,
  send-datagram sys w l from (error_packet err msg) (5 + length msg) t,
  take-error_packet err msg h,
)
