-- ===== src/Services/Ids.antt =====
-- The service ids of src/service.h, one bit each.
use bootd.Base.{ℕ, Bool, not, bit_and, ◌==◌}

abbrev pub rarp : ℕ
rarp = 1

abbrev pub dhcp : ℕ
dhcp = 2

abbrev pub mop : ℕ
mop = 4

abbrev pub rmp : ℕ
rmp = 8

abbrev pub tftp : ℕ
tftp = 16

abbrev pub bootparam : ℕ
bootparam = 32

-- `LISTEN_LINK`, `LISTEN_UDP` and `LISTEN_RPC_UDP`
abbrev pub listen_link : ℕ
listen_link = 13

abbrev pub listen_udp : ℕ
listen_udp = 18

abbrev pub listen_rpc_udp : ℕ
listen_rpc_udp = 32

abbrev pub all : ℕ
all = 0xffff

-- `(allowed & service) != 0`
unfoldable pub allows : (allowed service : ℕ) → Bool
allows allowed service = not (bit_and allowed service == 0)
