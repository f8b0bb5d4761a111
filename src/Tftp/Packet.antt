-- ===== src/Tftp/Packet.antt =====
-- The fields of a TFTP packet, its logging, and error replies.
pub mod Reply
pub mod Logged
use bootd.Base.{
  ℕ, ◌+◌, ◌-◌, Bool, true, false, ◌||◌, Option, none, some, List, [], ◌∷◌, ◌++◌, ◌==◌, ltb,
  if◌then◌else◌, length, Text, c_string,
}
use bootd.Server.State.{Listener, SockAddr}
use bootd.Server.Run.{Cmd, pure, need, fail_fault, ◌>>=◌, ◌>>◌}
use bootd.Server.System.{System}
use bootd.Server.Packet.{u16, slice, be16, strncpy_field}
use bootd.Listener.Send.{send}

-- A copy of `n` bytes from an offset into `static char buf[512]`, with a 0 behind them.
unfoldable pub copy_512 : (packet : List ℕ) → (offset n : ℕ) → Cmd Text
copy_512 packet offset n =
    if ltb n 512
    then (do bytes ← need (slice packet offset n); need (c_string (bytes ++ 0 ∷ [])))
    else fail_fault

abbrev is_request : ℕ → Bool
is_request op = op == 1 || op == 2

unfoldable pub tftp_get_filename : (packet : List ℕ) → (pktlen : ℕ) → Cmd (Option Text)
tftp_get_filename packet pktlen = do
  op ← need (u16 packet 0)
  if is_request op then copy_512 packet 2 (pktlen - 2) >>= (λ s. pure (some s)) else pure none

-- The loop of `tftp_get_mode`; the state is what stands in `buf[0 .. j)`, or `none` while `j` is -1.
unfoldable pub mode_loop : Option Text → List ℕ → Option Text
mode_loop st [] = st
mode_loop none (c ∷ cs) = mode_loop (if c == 0 then some [] else none) cs
mode_loop (some acc) (c ∷ cs) = elim (c == 0) [
  | true ↦ some acc
  | false ↦ mode_loop (some (acc ++ c ∷ [])) cs
]

-- The text and its 0 go to `static char buf[512]`.
unfoldable pub bounded_512 : Option Text → Cmd (Option Text)
bounded_512 none = pure none
bounded_512 (some s) = if ltb (length s) 512 then pure (some s) else fail_fault

unfoldable pub tftp_get_mode : (packet : List ℕ) → (pktlen : ℕ) → Cmd (Option Text)
tftp_get_mode packet pktlen = do
  op ← need (u16 packet 0)
  if is_request op
      then (do bytes ← need (slice packet 2 (pktlen - 2)); bounded_512 (mode_loop none bytes))
      else pure none

unfoldable pub tftp_get_errmsg : (packet : List ℕ) → (pktlen : ℕ) → Cmd (Option Text)
tftp_get_errmsg packet pktlen = do
  op ← need (u16 packet 0)
  if op == 5 then copy_512 packet 4 (pktlen - 4) >>= (λ s. pure (some s)) else pure none

-- `tftp_log_msgpacket`: what it reads. The line that it logs is not modelled; it is never at LOG_ERR.
unfoldable pub tftp_log_msgpacket : (packet : List ℕ) → (pktlen : ℕ) → Cmd (Unit {0})
tftp_log_msgpacket packet pktlen = do
  op ← need (u16 packet 0)
  if is_request op
      then (do tftp_get_filename packet pktlen; tftp_get_mode packet pktlen; pure tt)
      else if op == 3 || op == 4
      then (do need (u16 packet 2); pure tt)
      else if op == 5
      then (do tftp_get_errmsg packet pktlen; need (u16 packet 2); pure tt)
      else pure tt

-- The `struct tftp_header_s` of an error reply
unfoldable pub error_packet : (err : ℕ) → (msg : Text) → List ℕ
error_packet err msg = be16 5 ++ (be16 err ++ strncpy_field 512 msg)

unfoldable pub tftp_send_error :
    System → Listener → (from : SockAddr) → (err : ℕ) → (msg : Text) → Cmd (Unit {0})
tftp_send_error sys l from err msg = do
  tftp_log_msgpacket (error_packet err msg) (5 + length msg)
  send sys l (some from) (error_packet err msg) (5 + length msg)
  pure tt
