-- ===== src/Daemon/Link.antt =====
-- The parts of `listener_new_link` of src/listener.c. A listener under construction is a record of
-- its own, with what libnet and pcap hold open. The constants are those of the BSDs.
pub mod New
pub mod Stages
pub mod Held
use bootd.Base.{
  ℕ, suc, ◌+◌, Bool, true, false, ◌&&◌, Option, none, some, List, [], ◌∷◌, ◌==◌, if◌then◌else◌,
  bit_and, bit_or, Text,
}
use bootd.Server.State.{EtherAddr, IpAddr, Listener, link}
use bootd.Server.Run.{Cmd, done}

-- The calls of libnet, pcap and the system, as functions of the number of calls made before;
-- handles are numbers, and `none` is a failure. `host_name` is the string that gethostname leaves
-- in the buffer; `ntohl` depends on the byte order of the machine. `pcap_compile` is given the
-- handle, the filter and the netmask, and returns the program.
pub record LinkLibrary : Type 0 where
  pub libnet_init : ℕ → (device : Text) → Option ℕ
  pub libnet_get_hwaddr : ℕ → (lnet : ℕ) → Option EtherAddr
  pub libnet_get_ipaddr4 : ℕ → (lnet : ℕ) → IpAddr
  pub ntohl : IpAddr → IpAddr
  pub host_name : ℕ → Text
  pub pcap_open_live : ℕ → (device : Text) → Option ℕ
  pub pcap_datalink : ℕ → (pcap : ℕ) → ℕ
  pub pcap_fileno : ℕ → (pcap : ℕ) → ℕ
  pub pcap_lookupnet : ℕ → (device : Text) → Option ℕ
  pub pcap_compile : ℕ → (pcap : ℕ) → (filter : Text) → (mask : ℕ) → Option ℕ
  pub pcap_setfilter : ℕ → (pcap program : ℕ) → Bool
  pub fcntl_getfl : ℕ → (fd : ℕ) → Option ℕ
  pub fcntl_setfl : ℕ → (fd flags : ℕ) → Bool
  pub ioctl : ℕ → (fd request on : ℕ) → Bool

-- The struct that is being built, and what the libraries hold open, the newest first.
pub record Setup : Type 0 where
  pub calls : ℕ
  pub open_lnets : List ℕ
  pub open_pcaps : List ℕ
  pub lnet : Option ℕ
  pub pcap : Option ℕ
  pub dlt : ℕ
  pub fd : ℕ
  pub ip : IpAddr
  pub eth : EtherAddr
  pub name : Option Text

-- `DLT_EN10MB`, `O_NONBLOCK`, and the requests `BIOCIMMEDIATE`, `BIOCSHDRCMPLT` and `BIOCSSEESENT`
abbrev pub dlt_en10mb : ℕ
dlt_en10mb = 1

abbrev pub o_nonblock : ℕ
o_nonblock = 4

abbrev pub biocimmediate : ℕ
biocimmediate = 0x80044270

abbrev pub biocshdrcmplt : ℕ
biocshdrcmplt = 0x80044275

abbrev pub biocsseesent : ℕ
biocsseesent = 0x80044277

-- The text before the first dot
abbrev pub before_dot : Text → Text
before_dot [] = []
before_dot (c ∷ cs) = let rest = before_dot cs in if c == b'.' then [] else c ∷ rest

-- A handle is closed.
abbrev pub close_handle : ℕ → List ℕ → List ℕ
close_handle h [] = []
close_handle h (x ∷ xs) = let rest = close_handle h xs in if x == h then xs else x ∷ rest

abbrev pub called : Setup → Setup
called s = record s { calls = suc s.calls }

module _ (lib : LinkLibrary) where
  -- The flags that are set: `!O_NONBLOCK` is 0 in C.
  unfoldable pub flags_for : (flags on : ℕ) → ℕ
  flags_for flags on = if on == 0 then bit_and flags 0 else bit_or flags o_nonblock

  unfoldable pub nonblock_flags : (fd on : ℕ) → Option ℕ → Setup → Bool × Setup
  unfolding flags_for
  nonblock_flags fd on none s = (false, s)
  nonblock_flags fd on (some flags) s = (lib.fcntl_setfl s.calls fd (flags_for flags on), called s)

  -- `i_listener_fcntl_nonblock`
  unfoldable pub fcntl_nonblock : (fd on : ℕ) → Setup → Bool × Setup
  unfolding nonblock_flags
  fcntl_nonblock fd on s = nonblock_flags fd on (lib.fcntl_getfl s.calls fd) (called s)

  -- `i_listener_ioctl_immediate`, `i_listener_ioctl_shdrcmplt` and `i_listener_ioctl_sseesent`, by
  -- their request
  unfoldable pub ioctl_set : (request fd on : ℕ) → Setup → Bool × Setup
  ioctl_set request fd on s = (lib.ioctl s.calls fd request on, called s)

  unfoldable pub lnet_opened : Option ℕ → Setup → Bool × Setup
  lnet_opened none s = (false, s)
  lnet_opened (some h) s = (true, record s { lnet = some h; open_lnets = h ∷ s.open_lnets })

  -- `i_listener_link_init_lnet`
  unfoldable pub init_lnet : (device : Text) → Setup → Bool × Setup
  unfolding lnet_opened
  init_lnet device s = lnet_opened (lib.libnet_init s.calls device) (called s)

  unfoldable pub hwaddr_found : Option EtherAddr → Setup → Setup
  hwaddr_found none s = s
  hwaddr_found (some eth) s = record s { eth = eth }

  -- `i_listener_link_init_addr` with libnet's handle, which never fails; an address 0 is warned of.
  unfoldable pub init_addr_of : (lnet : ℕ) → Setup → Setup
  unfolding hwaddr_found
  init_addr_of lnet s =
      let t = hwaddr_found (lib.libnet_get_hwaddr s.calls lnet) (called s) in
      record t {
        ip = lib.ntohl (lib.libnet_get_ipaddr4 t.calls lnet);
        name = some (before_dot (lib.host_name (t.calls + 1)));
        calls = t.calls + 2;
      }

  unfoldable pub init_addr_with : (lnet : Option ℕ) → Setup → Bool × Setup
  unfolding init_addr_of
  init_addr_with none s = (false, s)
  init_addr_with (some h) s = (true, init_addr_of h s)

  -- Behind `init_lnet`, which has set the handle
  unfoldable pub init_addr : Setup → Bool × Setup
  unfolding init_addr_with
  init_addr s = init_addr_with s.lnet s

  -- Behind the test of the link type; what the calls on the descriptor return is not looked at.
  unfoldable pub pcap_configured : (pcap : ℕ) → Setup → Setup
  unfolding ioctl_set fcntl_nonblock
  pcap_configured h s =
      let fd = lib.pcap_fileno s.calls h in
      let t = record (called s) { fd = fd } in
      let a = (ioctl_set biocimmediate fd 1 t).1 in
      let b = (ioctl_set biocshdrcmplt fd 1 a).1 in
      let c = (ioctl_set biocsseesent fd 0 b).1 in (fcntl_nonblock fd 1 c).1

  unfoldable pub pcap_opened : Option ℕ → Setup → Bool × Setup
  unfolding pcap_configured
  pcap_opened none s = (false, s)
  pcap_opened (some h) s =
      let dlt = lib.pcap_datalink s.calls h in
      let t = record (called s) { pcap = some h; dlt = dlt; open_pcaps = h ∷ s.open_pcaps } in
      if dlt == dlt_en10mb
      then (true, pcap_configured h t)
      else (false, record t { pcap = none; dlt = 0; open_pcaps = close_handle h t.open_pcaps })

  -- `i_listener_link_init_pcap`
  unfoldable pub init_pcap : (device : Text) → Setup → Bool × Setup
  unfolding pcap_opened
  init_pcap device s = pcap_opened (lib.pcap_open_live s.calls device) (called s)

  unfoldable pub filter_compiled : (pcap : ℕ) → Option ℕ → Setup → Bool × Setup
  filter_compiled h none s = (false, s)
  filter_compiled h (some program) s = (lib.pcap_setfilter s.calls h program, called s)

  unfoldable pub net_found : (pcap : ℕ) → (filter : Text) → Option ℕ → Setup → Bool × Setup
  unfolding filter_compiled
  net_found h filter none s = (false, s)
  net_found h filter (some mask) s =
      filter_compiled h (lib.pcap_compile s.calls h filter mask) (called s)

  unfoldable pub filter_on :
      (device : Text) → (pcap : ℕ) → (filter : Option Text) → Setup → Bool × Setup
  unfolding net_found
  filter_on device h none s = (true, s)
  filter_on device h (some filter) s =
      net_found h filter (lib.pcap_lookupnet s.calls device) (called s)

  unfoldable pub filter_with :
      (device : Text) → (filter : Option Text) → (pcap : Option ℕ) → Setup → Bool × Setup
  unfolding filter_on
  filter_with device filter none s = (false, s)
  filter_with device filter (some h) s = filter_on device h filter s

  -- `i_listener_link_init_filter`, behind `init_pcap`, which has set the handle
  unfoldable pub init_filter : (device : Text) → (filter : Option Text) → Setup → Bool × Setup
  unfolding filter_with
  init_filter device filter s = filter_with device filter s.pcap s
