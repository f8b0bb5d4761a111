-- ===== src/Tests/Strings.antt =====
-- Words and quoting.
use bootd.Base.{
  ℕ, ◌++◌, ◌≡◌, refl, false, some, [], ◌∷◌, Text, codes, strcmp_eq, strcasecmp_eq, arith,
}
use bootd.Strings.Words.{str_is_true, str_is_false, str_get_bool, str_get_loglevel, str_bool}
use bootd.Strings.Quote.{quoted, quote_loop, str_do_quote}
use bootd.Strings.Quote.Read.{str_do_quote-tokens}
use bootd.Config.Scanner.{fresh}
use bootd.Config.Scanner.Flat.{tokens_from}

yes_is_true : str_get_bool (some (codes "YES")) ≡ some 1
unfolding str_get_bool str_is_true strcasecmp_eq
yes_is_true = refl

false_is_false : str_get_bool (some (str_bool false)) ≡ some 0
unfolding str_get_bool str_is_true str_is_false str_bool strcasecmp_eq strcmp_eq
false_is_false = refl

warning_level : str_get_loglevel (some (codes "warning")) ≡ some 2
unfolding str_get_loglevel strcmp_eq
warning_level = refl

-- A quote that is escaped at the end of the buffer: 5 bytes go to a buffer of 4.
one_too_many : str_do_quote (some (b'"' ∷ [])) 4 ≡ some (b'"' ∷ b'\\' ∷ b'"' ∷ b'"' ∷ 0 ∷ [])
unfolding str_do_quote quote_loop quoted
one_too_many = refl

str_do_quote-tokens_example :
    (b : Text) × (n : ℕ) × (str_do_quote (some (codes "a b")) 16 ≡ some (b ++ 0 ∷ []))
    × (tokens_from (fresh 1) (b ++ codes "  ;") ≡ codes "a b" ∷ tokens_from (fresh n) (codes " ;"))
str_do_quote-tokens_example =
    str_do_quote-tokens (codes "a b") 16 1 (codes " ;") (λ e. cc) (omega arith) (omega arith)
      (
        (λ e. omega arith, λ e. omega arith),
        (
          λ e. omega arith,
          (
            (λ e. omega arith, λ e. omega arith),
            (λ e. omega arith, ((λ e. omega arith, λ e. omega arith), (λ e. omega arith, tt))),
          ),
        ),
      )
