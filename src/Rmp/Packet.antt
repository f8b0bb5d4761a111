-- ===== src/Rmp/Packet.antt =====
-- The header, the request bodies and the names of src/rmp.h and src/rmp.c.
use bootd.Base.{
  ℕ, ◌+◌, ◌*◌, ◌||◌, List, [], ◌∷◌, ◌++◌, ◌==◌, if◌then◌else◌, get_elem?, Text, c_string, ℤ,
}
use bootd.Config.Values.Numbers.{to_int}
use bootd.Rmp.Op
use bootd.Server.State.{EtherAddr, Listener}
use bootd.Server.Run.{Cmd, pure, need, ◌>>=◌, ◌>>◌}
use bootd.Server.Packet.{u16, slice, be16}

abbrev pub rmp_addr : EtherAddr
rmp_addr = 0x9 ∷ 0x0 ∷ 0x9 ∷ 0x0 ∷ 0x0 ∷ 0x4 ∷ []

abbrev pub sap_hp : ℕ
sap_hp = 0xf8

abbrev pub cntl_hp : ℕ
cntl_hp = 0x300

abbrev pub dxsap_hp : ℕ
dxsap_hp = 0x608

abbrev pub sxsap_hp : ℕ
sxsap_hp = 0x609

abbrev pub probe_sid : ℕ
probe_sid = 0xffff

-- `struct rmp_header`, 32 bytes.
pub record RmpHeader : Type 0 where
  pub daddr : EtherAddr
  pub saddr : EtherAddr
  pub dsap : ℕ
  pub cntl : ℕ
  pub dxsap : ℕ
  pub type : ℕ
  pub seqh : ℕ
  pub seql : ℕ
  pub session : ℕ

-- `ntohs(seqh) << 16 | ntohs(seql)` as an `int` of 32 bits
abbrev pub seq : RmpHeader → ℤ
unfolding to_int
seq h = to_int (h.seqh * 65536 + h.seql)

unfoldable pub rmp_header : (packet : List ℕ) → Cmd RmpHeader
rmp_header packet = do
  daddr ← need (slice packet 0 6)
  saddr ← need (slice packet 6 6)
  dsap ← need (get_elem? packet 14)
  cntl ← need (u16 packet 16)
  dxsap ← need (u16 packet 20)
  type ← need (get_elem? packet 24)
  seqh ← need (u16 packet 26)
  seql ← need (u16 packet 28)
  session ← need (u16 packet 30)
  pure (record {
    daddr = daddr;
    saddr = saddr;
    dsap = dsap;
    cntl = cntl;
    dxsap = dxsap;
    type = type;
    seqh = seqh;
    seql = seql;
    session = session;
  })

-- The loop of `rmp_machtype` over 20 bytes: it stops at a blank or a 0.
unfoldable pub machtype_of : List ℕ → Text
machtype_of [] = []
machtype_of (c ∷ cs) = let rest = machtype_of cs in if c == 0x20 || c == 0 then [] else c ∷ rest

unfoldable pub rmp_machtype : (packet : List ℕ) → Cmd Text
rmp_machtype packet = do bytes ← need (slice packet 34 20); pure (machtype_of bytes)

-- `rmp_filename`: `flnm_size` bytes from an offset, as a string
unfoldable pub rmp_filename : (packet : List ℕ) → (offset flnm_size : ℕ) → Cmd Text
rmp_filename packet offset flnm_size = do
  bytes ← need (slice packet offset flnm_size)
  need (c_string (bytes ++ 0 ∷ []))

-- The body of a boot request: version, machine type and file name. The log reads all of it.
pub record BootReq : Type 0 where
  pub version : ℕ
  pub machtype : Text
  pub flnm : Text

unfoldable pub boot_req : (packet : List ℕ) → Cmd BootReq
boot_req packet = do
  version ← need (u16 packet 32)
  machtype ← rmp_machtype packet
  flnm_size ← need (get_elem? packet 54)
  flnm ← rmp_filename packet 55 flnm_size
  pure (record { version = version; machtype = machtype; flnm = flnm })

-- `rmp_logpacket` on what was received: it reads the body that belongs to the type.
unfoldable pub rmp_logpacket : (packet : List ℕ) → RmpHeader → Cmd (Unit {0})
rmp_logpacket packet h =
    if h.type == Op.boot_req
    then (do boot_req packet; pure tt)
    else if h.type == Op.boot_repl
    then (do
      need (u16 packet 32)
      flnm_size ← need (get_elem? packet 34)
      rmp_filename packet 35 flnm_size
      pure tt)
    else if h.type == Op.read_req
    then (do need (u16 packet 32); pure tt)
    else pure tt

-- The 32 bytes of a reply's header; `len` stands where 802.3 has the length.
unfoldable pub reply_header : Listener → RmpHeader → (len type retcode session : ℕ) → List ℕ
reply_header l req len type retcode session =
    req.saddr
    ++ (l.eth
        ++ (be16 len
            ++ (sap_hp ∷ sap_hp ∷ be16 cntl_hp
                ++ (be16 0
                    ++ (be16 sxsap_hp
                        ++ (be16 dxsap_hp
                            ++ (type ∷ retcode ∷ be16 req.seqh
                                ++ (be16 req.seql ++ be16 session))))))))
