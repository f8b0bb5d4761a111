-- ===== src/Rmp/Handler/Reads.antt =====
-- Read requests: what a session answers them with.
use bootd.Base.{
  ℕ, suc, ◌+◌, ◌≡◌, ◌*◌, Option, none, some, List, [], ◌∷◌, ◌++◌, if◌then◌else◌, min, length, take,
  get_elem?, ltb, ℤ,
}
use bootd.Server.State.{Host, Session, Listener, World}
use bootd.Server.Run.{Run, pure, and_then}
use bootd.Server.System.{System}
use bootd.Host.Sessions.{Check, no_error, no_session, bad_sid}
use bootd.Host.Sessions.Checked.{touched, Verdict}
use bootd.Services.Ids
use bootd.Tftp.Handler.{bf_fd}
use bootd.Rmp.Packet.{RmpHeader, reply_header}
use bootd.Rmp.Op
use bootd.Rmp.Code

-- The code that goes with what `read` returned.
abbrev pub code_for : Option (List ℕ) → ℕ
code_for none = Code.abort
code_for (some []) = Code.eof
code_for (some (b ∷ bs)) = Code.okay

-- What the file has at the sequence number. From 2^31 on, where the high half of the number is
-- 0x8000 or more, the offset is below 0, and the read fails.
abbrev pub read_for : System → (calls fd len : ℕ) → RmpHeader → Option (List ℕ)
read_for sys k fd len req =
    if ltb req.seqh 0x8000 then sys.read_at k fd len (req.seqh * 65536 + req.seql) else none

abbrev pub data_for : Option (List ℕ) → List ℕ
data_for none = []
data_for (some bytes) = bytes

-- The length that the reply has, one less where `read` failed.
abbrev pub length_for : Option (List ℕ) → ℕ
length_for none = 17
length_for (some bytes) = 18 + length bytes

-- The reply's frame as it was built, and the bytes that are behind it in the buffer
abbrev pub frame : System → World → Listener → RmpHeader → Option (List ℕ) → List ℕ
frame sys w l req got =
    reply_header l req (length_for got) Op.read_repl (code_for got) req.session
    ++ (data_for got ++ sys.stale w.calls)

-- The world behind the attempt to send the reply on a link listener.
abbrev pub replied : System → World → Listener → RmpHeader → Option (List ℕ) → World
replied sys w l req got = if ltb (length_for got) 62 then w else record w {
  calls = suc w.calls;
  sent =
      (record { fd = l.fd; to = none; bytes = take (length_for got) (frame sys w l req got) })
      ∷ w.sent;
}

abbrev discard : Run ℤ → Run (Unit {0})
discard r = and_then r (λ _. pure tt)

-- What a verdict on the session leads to: the world behind the answer.
abbrev pub ReadOutcome :
    System → World → Listener → Host → RmpHeader → (size : ℕ) → Check → World → Type 0
ReadOutcome sys w l h req size no_error v =
    (s : ℕ) × (x : Session) × (h.session ≡ some s)
    × (get_elem? w.sessions s ≡ some (some x))
    × (x.service ≡ Ids.rmp)
    × (x.sid ≡ req.session)
    × (v
        ≡ replied sys (record (touched sys w s x) { calls = suc (suc w.calls) }) l req
            (read_for sys (suc w.calls) (bf_fd x.fds) (min size 1482) req))
ReadOutcome sys w l h req size no_session v = Verdict sys w h Ids.rmp req.session no_session v
ReadOutcome sys w l h req size bad_sid v = Verdict sys w h Ids.rmp req.session bad_sid v
