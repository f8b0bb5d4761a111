-- ===== src/Rmp/Handler/Boots.antt =====
-- Boot requests that are no probes.
use bootd.Base.{
  ℕ, suc, ◌≤◌, ◌≡◌, refl, ◌∙◌, Bool, true, false, Option, none, some, List, length, get_elem?, set,
  Text,
}
use bootd.Server.State.{Host, File, Session, Listener, SockAddr, World}
use bootd.Server.Run.{Run, done, fault}
use bootd.Server.System.{System, Opened, opened, failed, syscall}
use bootd.Services.Ids
use bootd.Util.Files.{util_name2file}
use bootd.Host.Memory.{read_host, read_session, write_session}
use bootd.Host.Sessions.Count.{SessionsOk}
use bootd.Host.Sessions.Timeouts.{IsPath}
use bootd.Host.Sessions.Total.{Answer, host_session_add-Keeps}
use bootd.Tftp.Handler.{session_of, update_session, open_path, set_fd}
use bootd.Rmp.Packet.{BootReq}
use bootd.Rmp.Handler.{next_sid, boot_opened, boot_granted, boot_file, on_boot}

-- The call returns, and nothing was sent.
abbrev pub Unsent : Run (Unit {0}) → World → Type 0
Unsent r w = (v : World) × (r ≡ done tt v) × (v.sent ≡ w.sent)

-- What a boot request comes to, by the file that its name stands for.
abbrev pub BootOutcome : Option File → Run (Unit {0}) → World → Type 0
BootOutcome none r w = r ≡ fault
BootOutcome (some f) r w = Unsent r w

update_session-done :
    (p s : ℕ) (h : Host) (x : Session) (f : Session → Session) (v : World)
    → get_elem? v.hosts p ≡ some h
    → h.session ≡ some s
    → get_elem? v.sessions s ≡ some (some x)
    → update_session p f v ≡ done tt (record v { sessions = set v.sessions s (some (f x)) })
unfolding update_session session_of read_host read_session write_session
update_session-done p s h x f v eh es ex = simp (eh, es, ex)

SessionsOk-sid : {w : World} (n : ℕ) → SessionsOk w → SessionsOk (record w { rmp_sid = n })
SessionsOk-sid n ok = record {
  live = ok.live;
  apart = ok.apart;
  counted = ok.counted;
  quiet = ok.quiet;
}

abbrev no_peer : SockAddr
no_peer = record { addr = 0; port = 0 }

module _ (sys : System) (l : Listener) (w : World) (p : ℕ) where
  open_path-done :
      (path : Option Text) (v : World)
      → (o : Opened) × (n : ℕ) × (open_path sys l no_peer no_peer path v
          ≡ done o (record v { calls = n }))
  unfolding open_path syscall
  open_path-done none v = (_, v.calls, refl)
  open_path-done (some path) v = (_, suc v.calls, refl)

  boot_opened-Unsent :
      (v : World) (s : ℕ) (h : Host) (x : Session) (o : Opened)
      → get_elem? v.hosts p ≡ some h
      → h.session ≡ some s
      → get_elem? v.sessions s ≡ some (some x)
      → Unsent (boot_opened sys l p o v) v
  unfolding boot_opened
  boot_opened-Unsent v s h x (opened fd) eh es ex =
      (_, update_session-done p s h x (set_fd fd) v eh es ex, refl)
  boot_opened-Unsent v s h x (failed e) eh es ex =
      (_, update_session-done p s h x (set_fd 0) v eh es ex, refl)

  boot_granted-Unsent :
      (f : File) (sid : ℕ) (granted : Bool) (v : World)
      → Answer sys p Ids.rmp sid granted v
      → Unsent (boot_granted sys l p f granted v) v
  unfolding boot_granted
  boot_granted-Unsent f sid false v a = (v, refl, refl)
  boot_granted-Unsent f sid true v (h, s, x, eh, es, ex, e1, e2, e3) =
      let (o, n, run) = open_path-done f.path v in
      let (u, run', same) = boot_opened-Unsent (record v { calls = n }) s h x o eh es ex in
      (u, simp (run, run'), same)

  module _ (h : Host) (xs : List ℕ) (ok : SessionsOk w) (c : IsPath w.hosts w.g_hosts xs)
      (le : length xs ≤ length w.hosts) (eh : get_elem? w.hosts p ≡ some h) where
    boot_file-outcome : (o : Option File) → BootOutcome o (boot_file sys l p o w) w
    unfolding boot_file next_sid
    boot_file-outcome none = refl
    boot_file-outcome (some f) =
        let w1 = record w { rmp_sid = suc w.rmp_sid } in
        let (granted, v, run, ok', frame', a) =
          host_session_add-Keeps sys w1 p h Ids.rmp (suc w.rmp_sid) xs
            (SessionsOk-sid (suc w.rmp_sid) ok) c le eh in
        let (u, run', same) = boot_granted-Unsent f (suc w.rmp_sid) granted v a in
        (u, simp (run, run'), same ∙ frame'.sent)

    -- In a registry that ends, where the sessions' invariant holds: a boot request that is no
    -- probe is never answered. Where its name stands for a file of the host, the handler returns
    -- and has sent nothing, whether or not a session was to be had and the file could be opened.
    -- Where it stands for none, the handler faults at the log line, which reads the file's path.
    pub on_boot-outcome :
        (req : BootReq)
        → BootOutcome
            (util_name2file (some h) Ids.rmp (some req.flnm) 0)
            (on_boot sys l p h req w)
            w
    unfolding on_boot
    on_boot-outcome req = boot_file-outcome (util_name2file (some h) Ids.rmp (some req.flnm) 0)
