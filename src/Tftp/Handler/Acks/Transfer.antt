-- ===== src/Tftp/Handler/Acks/Transfer.antt =====
-- A whole transfer: a client that acknowledges block after block receives the file.
use bootd.Base.{ℕ, zero, suc, List, [], ◌∷◌, ◌++◌, drop}
use bootd.Server.State.{Listener, SockAddr, Sent}
use bootd.Server.Run.{Cmd, pure, ◌>>◌}
use bootd.Server.System.{System}
use bootd.Tftp.Handler.{tftp_handler}
use bootd.Tftp.Handler.Acks.{data_bytes, data_sent}

-- The handler on a sequence of packets of 4 bytes, for the blocks from `n` on.
abbrev pub ack_all :
    System → Listener → (from to : SockAddr) → (ℕ → List ℕ) → (n count : ℕ) → Cmd (Unit {0})
ack_all sys l from to packet n zero = pure tt
ack_all sys l from to packet n (suc k) =
    tftp_handler sys l from to (packet n) 4 >> ack_all sys l from to packet (suc n) k

-- The answers to them, the last one first, in front of what was sent before.
abbrev pub answers :
    Listener → SockAddr → (content : List ℕ) → (n count : ℕ) → List Sent → List Sent
answers l from content n zero before = before
answers l from content n (suc k) before =
    answers l from content (suc n) k (data_sent l from content n ∷ before)

-- What the client has of `count` answers, in the order in which they came.
abbrev pub received : (content : List ℕ) → (n count : ℕ) → List ℕ
received content n zero = []
received content n (suc k) = drop 4 (data_bytes content n) ++ received content (suc n) k
