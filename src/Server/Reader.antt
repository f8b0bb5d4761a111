-- ===== src/Server/Reader.antt =====
-- Calls that change nothing when they return.
use bootd.Base.{◌≡◌, refl, Bool, true, false, Option, none, some, if◌then◌else◌}
use bootd.Server.State.{World}
use bootd.Server.Run.{Run, Cmd, done, exited, fault, hang, pure, need, and_then, fail_fault, ◌>>=◌}

pub record IsReader {ℓ} {A : Type ℓ} (m : Cmd A) : Type ℓ where
  pub keeps : (w v : World) (a : A) → m w ≡ done a v → v ≡ w

module _ {ℓ} {A : Type ℓ} where
  pub IsReader-pure : (a : A) → IsReader (pure a)
  IsReader-pure a = record { keeps = λ w v b e. cc }

  pub IsReader-fault : IsReader (fail_fault {A = A})
  IsReader-fault = record { keeps = λ w v b e. cc }

  pub IsReader-need : (o : Option A) → IsReader (need o)
  IsReader-need none = record { keeps = λ w v b e. cc }
  IsReader-need (some a) = record { keeps = λ w v b e. cc }

  pub IsReader-if :
      (b : Bool) (m n : Cmd A) → IsReader m → IsReader n → IsReader (if b then m else n)
  IsReader-if true m n hm hn = hm
  IsReader-if false m n hm hn = hn

module _ {ℓ} {A B : Type ℓ} where
  pub and_then-done :
      (r : Run A) (k : A → Cmd B) (v : World) (b : B)
      → and_then r k ≡ done b v
      → (a : A) × (u : World) × (r ≡ done a u) × (k a u ≡ done b v)
  and_then-done (done a u) k v b e = (a, u, refl, e)
  and_then-done (exited u) k v b e = cc
  and_then-done fault k v b e = cc
  and_then-done hang k v b e = cc

  pub IsReader-bind :
      (m : Cmd A) (k : A → Cmd B) → IsReader m → ((a : A) → IsReader (k a)) → IsReader (m >>= k)
  IsReader-bind m k hm hk = record {
    keeps = λ w v b e.
        let (a, u, e1, e2) = and_then-done (m w) k v b e in
        let first : u ≡ w = hm.keeps w u a e1 in let second : v ≡ u = (hk a).keeps u v b e2 in cc;
  }

pub ruleset reader_rules =
    (IsReader-pure, IsReader-fault, IsReader-need, IsReader-if, IsReader-bind)
