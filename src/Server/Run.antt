-- ===== src/Server/Run.antt =====
-- What a call of a C function comes to, and the monad of such calls.
use bootd.Base.{Option, none, some}
use bootd.Server.State.{World}

-- `exited`: `log_msg` was called at level LOG_ERR and ended the process. `fault`: memory was read
-- or written where no object lies. `hang`: a walk along `next` pointers that never ends.
pub data Run {ℓ} (A : Type ℓ) : Type ℓ where
  done : A → World → Run A
  exited : World → Run A
  fault : Run A
  hang : Run A

abbrev pub Cmd {ℓ} : Type ℓ → Type ℓ
Cmd A = World → Run A

abbrev pub pure {ℓ} : {A : Type ℓ} → A → Cmd A
pure = done

module _ {ℓ κ} {A : Type ℓ} {B : Type κ} where
  abbrev pub and_then : Run A → (A → Cmd B) → Run B
  and_then (done a w) k = k a w
  and_then (exited w) k = exited w
  and_then fault k = fault
  and_then hang k = hang

  infixl 5 ◌>>=◌
  abbrev pub ◌>>=◌ : Cmd A → (A → Cmd B) → Cmd B
  m >>= k = λ w. and_then (m w) k

infixl 5 ◌>>◌
abbrev pub ◌>>◌ {ℓ κ} : {A : Type ℓ} {B : Type κ} → Cmd A → Cmd B → Cmd B
m >> k = m >>= λ _. k

abbrev pub get_world : Cmd World
get_world w = done w w

abbrev pub put_world : World → Cmd (Unit {0})
put_world w _ = done tt w

-- A dereference: a fault at a null pointer or beyond the end of a buffer.
abbrev pub need {ℓ} : {A : Type ℓ} → Option A → Cmd A
need none w = fault
need (some a) w = done a w

abbrev pub fail_fault {ℓ} : {A : Type ℓ} → Cmd A
fail_fault w = fault

-- `log_msg(LOG_ERR | …)`
abbrev pub log_err {ℓ} : {A : Type ℓ} → Cmd A
log_err w = exited w
