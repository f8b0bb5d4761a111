-- ===== src/Tests/Sessions.antt =====
-- The sessions.
use bootd.Base.{refl, [], ◌∷◌, arith}
use bootd.Services.Ids
use bootd.Host.Sessions.{host_session_delete, host_session_add, host_session_check}
use bootd.Host.Sessions.Keeps.{Keeps, Idle, host_session_delete-Keeps}
use bootd.Host.Sessions.Total.{Answer, host_session_add-Keeps}
use bootd.Host.Sessions.Checked.{Verdict, host_session_check-Keeps}
use bootd.Tests.Data.{sys, station, printer, world, world-ok}

host_session_delete-Keeps_example : Keeps (host_session_delete 1 world) world (λ _ v. Idle 1 v)
host_session_delete-Keeps_example = host_session_delete-Keeps world 1 station world-ok refl

host_session_add-Keeps_example :
    Keeps (host_session_add sys 0 Ids.rmp 7 world) world (λ b v. Answer sys 0 Ids.rmp 7 b v)
host_session_add-Keeps_example =
    host_session_add-Keeps sys world 0 printer Ids.rmp 7 (0 ∷ 1 ∷ []) world-ok
      (refl, printer, refl, (refl, station, refl, refl)) (omega arith) refl

host_session_check-Keeps_example :
    Keeps
      (host_session_check sys 1 Ids.tftp 2000 world)
      world
      (λ c v. Verdict sys world station Ids.tftp 2000 c v)
host_session_check-Keeps_example =
    host_session_check-Keeps sys world 1 station Ids.tftp 2000 world-ok refl
