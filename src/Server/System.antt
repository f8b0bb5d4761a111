-- ===== src/Server/System.antt =====
-- The calls of the system and of its libraries, as functions of the number of calls made before:
-- an answer may depend on everything that the system has seen. What a proof relies on is a
-- hypothesis of its own.
use bootd.Base.{ℕ, suc, Bool, Option, List, ℤ, Text}
use bootd.Server.State.{EtherAddr, IpAddr, SockAddr}
use bootd.Server.Run.{Cmd, done}

-- `errno` after a failed `open`, as far as the code tells the values apart.
pub data Errno : Type 0 where
  enoent eacces eperm emfile enfile other_errno : Errno

pub data Opened : Type 0 where
  opened : ℕ → Opened
  failed : Errno → Opened

-- `read_at` is `lseek` to the offset and `read` of at most so many bytes; `none` is a result
-- below 0. `udp_socket` is `socket`, `bind` and, where there is a peer, `connect`; `none` is a failure. `write_link` and
-- `send_to` return what libnet_write_link, send and sendto return. `arp_socket` is the `socket` of
-- rarp_updatetable, and `siocsarp` whether its ioctl puts the addresses into the ARP table. `stale` is what an uninitialised
-- buffer holds.
pub record System : Type 0 where
  pub time : ℕ → ℕ
  pub open_file : ℕ → Text → Opened
  pub read_at : ℕ → (fd len offs : ℕ) → Option (List ℕ)
  pub udp_socket : ℕ → (from : SockAddr) → (to : Option SockAddr) → Option ℕ
  pub write_link : ℕ → List ℕ → ℤ
  pub send_to : ℕ → Option SockAddr → List ℕ → ℤ
  pub arp_socket : ℕ → Option ℕ
  pub siocsarp : ℕ → (fd : ℕ) → IpAddr → EtherAddr → Bool
  pub ether_aton : Text → Option EtherAddr
  pub inet_aton : Text → Option IpAddr
  pub ether_ntoa : EtherAddr → Text
  pub inet_ntoa : IpAddr → Text
  pub ether_hostton : ℕ → Text → Option EtherAddr
  pub ether_ntohost : ℕ → EtherAddr → Option Text
  pub gethostbyname : ℕ → Text → Option IpAddr
  pub gethostbyaddr : ℕ → IpAddr → Option Text
  pub strerror : ℕ → Text
  pub stale : ℕ → List ℕ

-- One call of the system.
unfoldable pub syscall {ℓ} : {A : Type ℓ} → (ℕ → A) → Cmd A
syscall f w = done (f w.calls) (record w { calls = suc w.calls })
