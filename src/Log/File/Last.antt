-- ===== src/Log/File/Last.antt =====
-- The log file behind a sequence of calls, and the module in the prefix of a message.
use bootd.Base.{
  ℕ, ◌≡◌, refl, ap, Bool, false, ◌||◌, codes, strcmp_eq, Option, none, some, List, [], ◌∷◌,
  if◌then◌else◌, Text, arith, Bool-cases, inl, inr,
}
use bootd.Log.File.{
  LogFile, log_initial, is_standard, closed, log_opened, names_standard, log_set_file,
  prefix_modnum,
}

-- A call: the name, and what `open` returns for it
abbrev pub Call : Type 0
Call = Option Text × Option ℕ

-- The names of the standard streams
abbrev pub stream_names : List Text
stream_names = codes "-" ∷ codes "stdout" ∷ codes "stderr" ∷ []

abbrev pub one_of : Text → List Text → Bool
one_of w [] = false
one_of w (t ∷ ts) = strcmp_eq w t || one_of w ts

-- The file that a call opens
abbrev pub opens : Call → Option ℕ
opens (none, r) = none
opens (some w, r) = if one_of w stream_names then none else r

abbrev pub after_calls : List Call → LogFile → LogFile
after_calls [] l = l
after_calls (c ∷ cs) l = after_calls cs (log_set_file c.1 c.0 l)

-- The last file that was opened
abbrev pub last_opened : Option ℕ → List Call → Option ℕ
last_opened o [] = o
last_opened o (c ∷ cs) = last_opened (elim (opens c) [ none ↦ o | some fd ↦ some fd ]) cs

-- `open` returns no descriptor of a standard stream.
abbrev pub NoStandard : List Call → Type 0
NoStandard [] = Unit {0}
NoStandard ((w, none) ∷ cs) = NoStandard cs
NoStandard ((w, some fd) ∷ cs) = (is_standard fd ≡ false) × NoStandard cs

abbrev pub log_at : Option ℕ → LogFile
log_at none = log_initial
log_at (some fd) = record { fd = fd; opened = fd ∷ [] }

abbrev IsFile : Option ℕ → Type 0
IsFile none = Unit {0}
IsFile (some fd) = is_standard fd ≡ false

log_opened-at :
    (o : Option ℕ) (fd : ℕ) → IsFile o → log_opened (some fd) (log_at o) ≡ log_at (some fd)
unfolding log_opened
log_opened-at none fd h = refl
log_opened-at (some x) fd h =
    let e : closed x (x ∷ []) ≡ [] = ground arith in
    let kept : List ℕ → LogFile = λ t. record { fd = fd; opened = fd ∷ t } in simp h (ap kept e)

names_standard-one_of : (w : Text) → names_standard w ≡ one_of w stream_names
names_standard-one_of w = ground arith

after_calls-at :
    (cs : List Call) (o : Option ℕ)
    → NoStandard cs
    → IsFile o
    → after_calls cs (log_at o) ≡ log_at (last_opened o cs)
unfolding log_set_file
after_calls-at [] o s h = refl
after_calls-at ((none, none) ∷ cs) o s h = after_calls-at cs o s h
after_calls-at ((none, some fd) ∷ cs) o s h = after_calls-at cs o s.1 h
after_calls-at ((some w, none) ∷ cs) o s h = elim (Bool-cases (one_of w stream_names)) [
  | inl y ↦ simp (names_standard-one_of w, y) (after_calls-at cs o s h)
  | inr n ↦ simp (names_standard-one_of w, n) (unfold log_opened in after_calls-at cs o s h)
]
after_calls-at ((some w, some fd) ∷ cs) o s h = elim (Bool-cases (one_of w stream_names)) [
  | inl y ↦ simp (names_standard-one_of w, y) (after_calls-at cs o s.1 h)
  | inr n ↦
      simp (names_standard-one_of w, n, log_opened-at o fd h) (after_calls-at cs (some fd) s.1 s.0)
]

-- However often log_set_file is called, where open returns no descriptor of a standard stream, the
-- log goes to the last file that was opened, and every other one is closed; the names -, stdout and
-- stderr change nothing, so before a file is opened the log stays on standard error.
pub log_set_file-last :
    (cs : List Call) → NoStandard cs → after_calls cs log_initial ≡ log_at (last_opened none cs)
log_set_file-last cs s = after_calls-at cs none s tt

-- No message has the name of a module in its prefix: the number that is looked up is 0, whatever
-- module the message names.
pub prefix_modnum-zero : (what : ℕ) → prefix_modnum what ≡ 0
unfolding prefix_modnum
prefix_modnum-zero what = ground arith
