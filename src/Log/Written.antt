-- ===== src/Log/Written.antt =====
-- What the test of `log_msg` comes to behind `log_init`.
use bootd.Base.{
  ℕ, zero, suc, ◌<◌, ◌≡◌, refl, ap, ◌∙◌, inl, inr, Bool, true, false, Bool-cases, ◌&&◌, ◌||◌, some,
  List, [], ◌∷◌, ◌==◌, if◌then◌else◌, get_elem?, length, ℤ, pos, negsuc, arith,
}
use bootd.Log.{
  Levels, no_levels, level_of, cat_of, mod_of, log_error, log_set_level, level_bits, is_initial,
  log_init, at_least, at_least_of, passes, written, ended, log_msg,
}

-- The calls of `log_init`, one behind the other
abbrev pub log_inits : List ℤ → Levels → Levels
log_inits [] l = l
log_inits (level ∷ levels) l = log_inits levels (log_init level l)

level_bits-small : (level : ℤ) → level_bits level < 4
level_bits-small (pos n) = omega arith
level_bits-small (negsuc n) = omega arith

set_level-mod_levels : (m : ℕ) (l : Levels) → m < 4 → (log_set_level m l).mod_levels ≡ l.mod_levels
unfolding log_set_level
set_level-mod_levels m l h =
    let no_cat : cat_of m ≡ 0 = omega arith in
    let no_mod : mod_of m ≡ 0 = omega arith in simp (no_cat, no_mod)

init-mod_levels : (level : ℤ) (l : Levels) → (log_init level l).mod_levels ≡ l.mod_levels
unfolding log_init
init-mod_levels level l = elim (Bool-cases (is_initial l.minlevel)) [
  | inl y ↦ rw y (
      set_level-mod_levels (level_bits level)
        (record l { minlevel = pos 0; cat = 3 ∷ 3 ∷ 3 ∷ 3 ∷ 3 ∷ 3 ∷ 3 ∷ 3 ∷ 3 ∷ [] })
        (level_bits-small level))
  | inr n ↦ rw n refl
]

inits-mod_levels : (levels : List ℤ) (l : Levels) → (log_inits levels l).mod_levels ≡ l.mod_levels
inits-mod_levels [] l = refl
inits-mod_levels (level ∷ levels) l =
    inits-mod_levels levels (log_init level l) ∙ init-mod_levels level l

abbrev all_zero : List ℕ → Bool
all_zero [] = true
all_zero (x ∷ xs) = x == 0 && all_zero xs

all_zero-get_elem? :
    (xs : List ℕ) (i : ℕ) → all_zero xs ≡ true → i < length xs → get_elem? xs i ≡ some 0
all_zero-get_elem? [] i z h = elim h [ ]
all_zero-get_elem? (x ∷ xs) zero z h = ground arith
all_zero-get_elem? (x ∷ xs) (suc i) z h = all_zero-get_elem? xs i (ground arith) (omega arith)

or_true : (a b : Bool) → (a || b || true) ≡ true
or_true true true = refl
or_true true false = refl
or_true false true = refl
or_true false false = refl

passes-inits : (levels : List ℤ) (what : ℕ) → passes (log_inits levels no_levels) what ≡ true
unfolding passes
passes-inits levels what =
    let l = log_inits levels no_levels in
    let zero_level : get_elem? l.mod_levels (mod_of what) ≡ some 0 =
      ap (λ ms. get_elem? ms (mod_of what)) (inits-mod_levels levels no_levels)
      ∙ all_zero-get_elem? no_levels.mod_levels (mod_of what) refl (omega arith) in
    let by_mod : at_least_of (level_of what) (get_elem? l.mod_levels (mod_of what)) ≡ true =
      ap (at_least_of (level_of what)) zero_level ∙ ground arith in
    ap
      (λ b.
        at_least (level_of what) l.minlevel
        || at_least_of (level_of what) (get_elem? l.cat (cat_of what))
        || b)
      by_mod
    ∙ or_true (at_least (level_of what) l.minlevel)
        (at_least_of (level_of what) (get_elem? l.cat (cat_of what)))

-- However often and with whatever levels `log_init` was called, `log_msg` writes every message:
-- one at the level of errors ends the process, and no other does. The levels that were asked for
-- have no effect, as those of the modules stay 0.
pub log_msg-written :
    (levels : List ℤ) (what : ℕ)
    → log_msg (log_inits levels no_levels) what
      ≡ (if level_of what == log_error then ended else written)
unfolding log_msg
log_msg-written levels what = rw (passes-inits levels what) refl
