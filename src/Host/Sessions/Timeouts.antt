-- ===== src/Host/Sessions/Timeouts.antt =====
-- Timeouts: each returns and keeps the invariant.
use bootd.Base.{
  ℕ, zero, suc, ◌≤◌, ◌<◌, ◌≡◌, refl, Option, none, some, List, [], ◌∷◌, length, get_elem?, arith,
  pos, ◌+ℤ◌, ltb_ℤ, inl, inr, Bool-cases, Option-cases,
}
use bootd.Server.State.{Host, World}
use bootd.Server.System.{System}
use bootd.Util.Walk.{all_rounds}
use bootd.Host.Sessions.{host_session_timeout, timeout_from, util_host_session_timeout_all}
use bootd.Host.Sessions.Count.{SessionsOk}
use bootd.Host.Sessions.Keeps.{
  forget, Frame, Frame-refl, Frame-trans, Keeps, host_session_delete-Keeps,
}

-- From `p` the `next` pointers lead through these addresses to null.
abbrev pub IsPath : List Host → Option ℕ → List ℕ → Type 0
IsPath hosts p [] = p ≡ none
IsPath hosts p (i ∷ xs) =
    (p ≡ some i) × (h : Host) × (get_elem? hosts i ≡ some h) × IsPath hosts h.next xs

-- A host is still there behind a frame, but for its session.
pub still_there :
    {w v : World} (i : ℕ) (h : Host)
    → Frame w v
    → get_elem? w.hosts i ≡ some h
    → (g : Host) × (get_elem? v.hosts i ≡ some g) × (forget (some g) ≡ forget (some h))
still_there {w} {v} i h f eh = elim (Option-cases (get_elem? v.hosts i)) [
  | inl n ↦ absurd (ground (arith, f.hosts i))
  | inr (g, eg) ↦ (g, eg, ground (arith, f.hosts i))
]

pub IsPath-Frame :
    {w v : World} (p : Option ℕ) (xs : List ℕ)
    → Frame w v
    → IsPath w.hosts p xs
    → IsPath v.hosts p xs
IsPath-Frame p [] f c = c
IsPath-Frame {w} {v} p (i ∷ xs) f (e, h, eh, c) =
    let (g, eg, same) = still_there i h f eh in
    let next : h.next ≡ g.next = ground arith in (e, g, eg, IsPath-Frame g.next xs f (rw next at c))

pub SessionsOk-calls : {w : World} (n : ℕ) → SessionsOk w → SessionsOk (record w { calls = n })
SessionsOk-calls n ok = record {
  live = ok.live;
  apart = ok.apart;
  counted = ok.counted;
  quiet = ok.quiet;
}

pub Frame-calls : (w : World) (n : ℕ) → Frame w (record w { calls = n })
Frame-calls w n = record {
  hosts = λ q. refl;
  roots = refl;
  sizes = refl;
  listeners = refl;
  freed = refl;
  maximum = refl;
  sent = refl;
}

module _ (sys : System) where
  pub host_session_timeout-Keeps :
      (w : World) (p : ℕ) (h : Host)
      → SessionsOk w
      → get_elem? w.hosts p ≡ some h
      → Keeps (host_session_timeout sys p w) w (λ _ v. Unit {0})
  unfolding host_session_timeout
  host_session_timeout-Keeps w p h ok eh = elim (Option-cases h.session) [
    | inl e ↦ (tt, w, ground arith, ok, Frame-refl w, tt)
    | inr (s, es) ↦
        let (x, ex) = ok.live p h s eh es in
        let now = sys.time w.calls in
        let v = record w { calls = suc w.calls } in
        elim (Bool-cases (ltb_ℤ (pos x.atime +ℤ w.c_session_timeout) (pos now))) [
          | inl late ↦
              let (u, v', run, ok', f, idle) =
                host_session_delete-Keeps v p h (SessionsOk-calls (suc w.calls) ok) eh in
              (u, v', ground arith, ok', Frame-trans (Frame-calls w (suc w.calls)) f, tt)
          | inr early ↦ (
            tt,
            v,
            ground arith,
            SessionsOk-calls (suc w.calls) ok,
            Frame-calls w (suc w.calls),
            tt,
          )
        ]
  ]

  timeout_from-Keeps :
      (rounds : ℕ) (w : World) (p : Option ℕ) (xs : List ℕ)
      → SessionsOk w
      → IsPath w.hosts p xs
      → length xs < rounds
      → Keeps (timeout_from sys rounds p w) w (λ _ v. Unit {0})
  unfolding timeout_from
  timeout_from-Keeps zero w p xs ok c lt = elim lt [ ]
  timeout_from-Keeps (suc k) w p [] ok c lt = (tt, w, rw c, ok, Frame-refl w, tt)
  timeout_from-Keeps (suc k) w p (i ∷ xs) ok (e, h, eh, c) lt =
      let (u, v, run, ok', f, idle) = host_session_timeout-Keeps w i h ok eh in
      let (g, eg, same) = still_there i h f eh in
      let next : h.next ≡ g.next = ground arith in
      let (u', v', run', ok'', f', idle') =
        timeout_from-Keeps k v g.next xs ok' (rw next at (IsPath-Frame h.next xs f c))
          (omega arith) in
      (u', v', ground arith, ok'', Frame-trans f f', tt)

  pub timeout_all-Keeps :
      (w : World) (xs : List ℕ)
      → SessionsOk w
      → IsPath w.hosts w.g_hosts xs
      → length xs ≤ length w.hosts
      → Keeps (util_host_session_timeout_all sys w) w (λ _ v. Unit {0})
  unfolding util_host_session_timeout_all
  timeout_all-Keeps w xs ok c le =
      timeout_from-Keeps (all_rounds w) w w.g_hosts xs ok c (omega arith)
