-- ===== src/Tests/Tftp.antt =====
-- The TFTP handler: requests that are turned away, a read request, and a transfer.
use bootd.Base.{ℕ, ◌≡◌, refl, some, List, [], ◌∷◌, ◌++◌, c_string, codes, arith}
use bootd.Server.State.{World}
use bootd.Server.Run.{done, fault}
use bootd.Server.Packet.{u16, be16, slice}
use bootd.Services.Ids.{allows}
use bootd.Util.Files.{util_name2file}
use bootd.Tftp.Packet.{tftp_log_msgpacket, tftp_get_filename, copy_512}
use bootd.Tftp.Packet.Reply.{datagram, error_bytes}
use bootd.Tftp.Packet.Logged.{Fits, tftp_log_msgpacket-done}
use bootd.Tftp.Handler.{tftp_handler}
use bootd.Tftp.Handler.Denied.{tftp_handler-unknown}
use bootd.Tftp.Handler.Requests.{tftp_handler-rrq}
use bootd.Tftp.Handler.Acks.{IsRegular, Transferring, IsAck, data_sent, tftp_handler-ack}
use bootd.Tests.Data.{
  content, sys, client, stranger, server, station, transfer, tftp_listener, world, world-ok,
  world-IsRegistry, registry_list,
}

abbrev ack : ℕ → List ℕ
ack n = be16 4 ++ be16 n

ack-Fits : (n : ℕ) → Fits (ack n) 4
ack-Fits n = record { header = omega arith; inside = omega arith; short = omega arith }

-- A read request for the file `k`, in mode octet
abbrev rrq : List ℕ
rrq = be16 1 ++ (codes "k" ++ (0 ∷ codes "octet" ++ 0 ∷ []))

rrq-Fits : Fits rrq 10
rrq-Fits = record { header = omega arith; inside = omega arith; short = omega arith }

tftp_log_msgpacket-done_example : tftp_log_msgpacket rrq 10 world ≡ done tt world
tftp_log_msgpacket-done_example = tftp_log_msgpacket-done rrq-Fits world

tftp_handler-unknown_example :
    tftp_handler sys tftp_listener stranger server (ack 1) 4 world
    ≡ done tt (
        datagram sys world tftp_listener stranger
          (error_bytes 2 (codes "access denied, client unknown")))
tftp_handler-unknown_example =
    tftp_handler-unknown sys tftp_listener stranger server (ack 1) 4 world registry_list refl
      (ack-Fits 1) (world-IsRegistry transfer) refl

tftp_handler-rrq_example : tftp_handler sys tftp_listener client server rrq 10 world ≡ fault
unfolding allows u16 tftp_get_filename util_name2file copy_512 slice c_string
tftp_handler-rrq_example =
    tftp_handler-rrq sys tftp_listener client server rrq 10 world registry_list refl rrq-Fits
      (world-IsRegistry transfer) 1 station (some (codes "k")) (λ k from to. (7, refl)) world-ok
      refl refl refl refl refl

world-Transferring : Transferring world registry_list client 1 5
unfolding allows
world-Transferring = record {
  registry = world-IsRegistry transfer;
  found = refl;
  host = station;
  at_host = refl;
  allowed = refl;
  s = 0;
  session = transfer;
  has_session = refl;
  at_session = refl;
  service = refl;
  sid = refl;
  file = refl;
}

sys-IsRegular : IsRegular sys 5 content
sys-IsRegular k len offs = refl

first-IsAck : (i : ℕ) → i ≡ 1 → IsAck (ack i) i
unfolding u16
first-IsAck i e = rw e (record { opcode = refl; block = refl })

tftp_handler-ack_example :
    (v : World) × (tftp_handler sys tftp_listener client server (ack 1) 4 world ≡ done tt v)
    × (v.sent ≡ data_sent tftp_listener client content 1 ∷ [])
    × Transferring v registry_list client 1 5
tftp_handler-ack_example =
    tftp_handler-ack sys tftp_listener client server 1 5 content refl sys-IsRegular
      world-Transferring (ack 1) 4 1 (ack-Fits 1) (first-IsAck 1 refl)
