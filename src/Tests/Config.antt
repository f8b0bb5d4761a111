-- ===== src/Tests/Config.antt =====
-- The configuration file: tokens, entries, and what is looked up in them.
use bootd.Base.{
  ℕ, ◌+◌, ◌<◌, ◌≡◌, ◌≢◌, refl, inl, inr, Bool, true, false, ◌&&◌, not, some, List, [], ◌∷◌, ◌==◌,
  length, take, drop, Text, codes, strcmp_eq, strcmp_eq_refl, negsuc, arith,
}
use bootd.Server.Run
use bootd.Tests.Data.{world}
use bootd.Config.Scanner.{
  fresh, put, delimit, semicolon, step, step_char, step_plain, Reads, read_token,
}
use bootd.Config.Scanner.Flat.{tokens_from, all_bytes, TokenOf, read_token-TokenOf}
use bootd.Config.Scanner.Render.{NoNul, IsToken, AllTokens, render}
use bootd.Config.Tokenizer.{tokenize_new, tokenize_next}
use bootd.Config.Tokenizer.Queue.Next.{WordOf, tokenize_new-Holds, tokenize_next-WordOf}
use bootd.Config.Parser.{
  Entries, end, unset, entry, Parser, hang, done, exited, parse_new, parse_sub, parse_file,
}
use bootd.Config.Parser.Steps.{Short, Ready}
use bootd.Config.Parser.Printed.{IsName, IsValue, Written, print}
use bootd.Config.Parser.Printed.File.{parse_file-print}
use bootd.Config.Parser.Errors.{parse_sub-separator, parse_sub-cut}
use bootd.Config.Lookup.{
  each_get, single_value, entry_get, found_value, assure_no_entry, assure_none, the_value,
}
use bootd.Config.Lookup.Loop.{for_each, each_get-for_each}
use bootd.Config.Values.{add_services}
use bootd.Config.Values.Numbers.{
  str_get_int, skip_space, after_space, unsigned, digits, signed, to_int, is_space,
}

-- Tests for the conditions on words
abbrev no_nul : Text → Bool
no_nul [] = true
no_nul (c ∷ cs) = not (c == 0) && no_nul cs

no_nul-NoNul : (t : Text) → no_nul t ≡ true → NoNul t
no_nul-NoNul [] h = tt
no_nul-NoNul (c ∷ cs) h = (ground arith, no_nul-NoNul cs (ground arith))

differs : (s t : Text) → strcmp_eq s t ≡ false → s ≢ t
differs s t h e = let same : strcmp_eq s t ≡ true = rw e (strcmp_eq_refl t) in cc

-- A word that may be a name, and one that may be a value
abbrev may_name : Text → Bool
may_name t = no_nul t && not (strcmp_eq t (codes "}"))

abbrev may_value : Text → Bool
may_value t =
    no_nul t
    && (not (strcmp_eq t (codes "{"))
        && (not (strcmp_eq t (codes ";"))
            && (not (strcmp_eq t (codes ",")) && not (strcmp_eq t (codes "|")))))

may_name-IsName : (t : Text) → length t < 256 → may_name t ≡ true → IsName t
may_name-IsName t l h = ((no_nul-NoNul t (ground arith), l), differs t (codes "}") (ground arith))

may_value-IsValue : (t : Text) → length t < 256 → may_value t ≡ true → IsValue t
may_value-IsValue t l h = (
  (no_nul-NoNul t (ground arith), l),
  differs t (codes "{") (ground arith),
  differs t (codes ";") (ground arith),
  differs t (codes ",") (ground arith),
  differs t (codes "|") (ground arith),
)

abbrev sun : Entries
sun =
    entry (codes "host") (codes "sun" ∷ [])
      (entry (codes "ip") (codes "10.0.0.7" ∷ []) end false end) false end

-- Its text, read in two pieces
abbrev sun_reads : Reads
sun_reads = some (take 9 (render (print sun))) ∷ some (drop 9 (render (print sun))) ∷ []

abbrev conf_name : Text
conf_name = codes "bootd.conf"

sun-Written : Written unset sun
unfolding strcmp_eq
sun-Written = (
  may_name-IsName (codes "host") (omega arith) refl,
  (may_value-IsValue (codes "sun") (omega arith) refl, tt),
  omega arith,
  inr (
    may_name-IsName (codes "ip") (omega arith) refl,
    (may_value-IsValue (codes "10.0.0.7") (omega arith) refl, tt),
    omega arith,
    inl refl,
    refl,
    refl,
  ),
  refl,
  refl,
)

abbrev is_filled : Text → Bool
is_filled [] = false
is_filled (c ∷ cs) = no_nul (c ∷ cs)

is_filled-IsToken : (t : Text) → length t < 4096 → is_filled t ≡ true → IsToken t
is_filled-IsToken [] l h = cc
is_filled-IsToken (c ∷ cs) l h = (λ e. cc, l, no_nul-NoNul (c ∷ cs) h)

sun-AllTokens : AllTokens (print sun)
sun-AllTokens = (
  is_filled-IsToken (codes "host") (omega arith) refl,
  (
    is_filled-IsToken (codes "sun") (omega arith) refl,
    (
      is_filled-IsToken (codes "{") (omega arith) refl,
      (
        is_filled-IsToken (codes "ip") (omega arith) refl,
        (
          is_filled-IsToken (codes "10.0.0.7") (omega arith) refl,
          (
            is_filled-IsToken (codes ";") (omega arith) refl,
            (is_filled-IsToken (codes "}") (omega arith) refl, tt),
          ),
        ),
      ),
    ),
  ),
)

conf_name-Short : Short conf_name
conf_name-Short = (no_nul-NoNul conf_name refl, omega arith)

parse_file-print_example : (p : Parser) × (parse_file 5 conf_name sun_reads ≡ done sun p)
parse_file-print_example =
    parse_file-print sun sun_reads conf_name 5 sun-Written sun-AllTokens tt refl conf_name-Short
      (omega arith) (omega arith)

read_token-TokenOf_example :
    TokenOf (tokens_from (fresh 0) (all_bytes sun_reads)) (read_token 0 [] sun_reads)
read_token-TokenOf_example = read_token-TokenOf 0 [] sun_reads tt

tokenize_next-WordOf_example :
    WordOf 256
      (tokens_from (fresh 0) (all_bytes sun_reads))
      (tokenize_next (tokenize_new sun_reads) 256)
tokenize_next-WordOf_example =
    tokenize_next-WordOf (tokenize_new sun_reads) (tokens_from (fresh 0) (all_bytes sun_reads))
      (tokenize_new-Holds sun_reads tt) 256

abbrev listed : Reads
listed = some (codes "file a , b ;\n") ∷ []

abbrev listed_tokens : List Text
listed_tokens = codes "file" ∷ codes "a" ∷ codes "," ∷ codes "b" ∷ codes ";" ∷ []

listed-Ready : Ready (parse_new conf_name listed) listed_tokens (3 + 1 + 256)
unfolding step step_char step_plain put delimit semicolon
listed-Ready = record {
  queue = tokenize_new-Holds listed tt;
  space = omega arith;
  name = conf_name-Short;
  tables = omega arith;
}

listed_count : length (tokens_from (fresh 0) (all_bytes listed)) ≡ 5
unfolding step step_char step_plain put delimit semicolon
listed_count = refl

few-less : (n : ℕ) → n ≡ 5 → n < 6
few-less n e = omega arith

listed_few : length (tokens_from (fresh 0) (all_bytes listed)) < 6
listed_few = few-less (length (tokens_from (fresh 0) (all_bytes listed))) listed_count

parse_sub-separator_example : parse_sub 2 unset (parse_new conf_name listed) ≡ hang
unfolding strcmp_eq
parse_sub-separator_example =
    parse_sub-separator 1 unset (codes "file") (codes "a" ∷ []) (codes ",")
      (codes "b" ∷ codes ";" ∷ []) (parse_new conf_name listed)
      (may_name-IsName (codes "file") (omega arith) refl)
      (may_value-IsValue (codes "a") (omega arith) refl, tt) (omega arith) (inl refl) listed-Ready

abbrev cut_reads : Reads
cut_reads = some (codes "host sun\n") ∷ []

cut-Ready : Ready (parse_new conf_name cut_reads) (codes "host" ∷ codes "sun" ∷ []) (3 + 0 + 288)
unfolding step step_char step_plain put delimit semicolon
cut-Ready = record {
  queue = tokenize_new-Holds cut_reads tt;
  space = omega arith;
  name = conf_name-Short;
  tables = omega arith;
}

parse_sub-cut_example : parse_sub 2 unset (parse_new conf_name cut_reads) ≡ exited
unfolding strcmp_eq
parse_sub-cut_example =
    parse_sub-cut 1 unset (codes "host") [] (codes "sun") (parse_new conf_name cut_reads)
      (may_name-IsName (codes "host") (omega arith) refl) tt
      (may_value-IsValue (codes "sun") (omega arith) refl) (omega arith) cut-Ready

-- Two entries for services, around one for the directory
abbrev options : Entries
options = entry (codes "service") (codes "rarp" ∷ codes "tftp" ∷ []) end false (
    entry (codes "directory") (codes "/tftpboot" ∷ []) end false
      (entry (codes "service") (codes "rmp" ∷ []) end false end))

each_get-for_each_example :
    each_get (codes "service") (λ f s. add_services f.values s) options 0 world
    ≡ for_each (codes "service") (λ f s. add_services f.values s) options 0 world
each_get-for_each_example =
    each_get-for_each (codes "service") (λ f s. add_services f.values s) options 0 world

-- A second entry is an error, an entry of another name is none.
service_twice : single_value (codes "service") true options world ≡ Run.exited world
unfolding single_value entry_get found_value assure_no_entry assure_none the_value strcmp_eq
service_twice = refl

negative_number : str_get_int (codes " -30") ≡ some (negsuc 29)
unfolding str_get_int skip_space after_space unsigned digits signed to_int is_space
negative_number = refl
