-- ===== src/Strings/Hostport/Parts.antt =====
-- What `str_get_hostport` makes of a host and a port number.
use bootd.Base.{
  ℕ, zero, suc, ◌/◌, ◌<◌, ◌≡◌, refl, ap, ◌∙◌, inl, inr, Bool, true, false, Bool-cases, ◌||◌, Option,
  none, some, [], ◌∷◌, ◌++◌, ◌==◌, leb, ltb, if◌then◌else◌, length, Text, strcmp_eq, arith,
}
use bootd.Server.State.{IpAddr}
use bootd.Services.Names.{decimal, digits_onto}
use bootd.Config.Values.Numbers.{is_digit, starts_digit}
use bootd.Config.Values.Decimal.{digits-decimal, starts_digit-decimal}
use bootd.Strings.Hostport.{
  Split, split, refused, fault, has_char, at_colon, unstarred, host_part, port_part, number_port,
  checked_port, with_port, host_ok, str_get_hostport,
}

has_char-append : (c : ℕ) (s t : Text) → has_char c (s ++ t) ≡ (has_char c s || has_char c t)
unfolding has_char
has_char-append c [] t = refl
has_char-append c (x ∷ s) t = ground (arith, has_char-append c s t)

has_char-digits_onto :
    (k n c : ℕ) (acc : Text)
    → is_digit c ≡ false
    → has_char c acc ≡ false
    → has_char c (digits_onto k n acc) ≡ false
unfolding digits_onto has_char
has_char-digits_onto zero n c acc d h = h
has_char-digits_onto (suc k) n c acc d h = elim (Bool-cases (ltb n 10)) [
  | inl y ↦ rw y (ground arith)
  | inr more ↦ rw more (has_char-digits_onto k (n / 10) c _ d (ground arith))
]

has_char-decimal : (n c : ℕ) → is_digit c ≡ false → has_char c (decimal n) ≡ false
unfolding decimal
has_char-decimal n c d = has_char-digits_onto 10 n c [] d (unfold has_char in refl)

at_colon-append : (h t : Text) → has_char b':' h ≡ false → at_colon (h ++ b':' ∷ t) ≡ (h, t)
unfolding at_colon has_char
at_colon-append [] t e = refl
at_colon-append (c ∷ h) t e = ground (arith, at_colon-append h t)

has_colon : (h t : Text) → has_char b':' (h ++ b':' ∷ t) ≡ true
unfolding has_char
has_colon [] t = refl
has_colon (c ∷ h) t = ground (arith, has_colon h t)

blank_behind : (n : ℕ) → has_char b' ' (b':' ∷ decimal n) ≡ false
unfolding has_char
blank_behind n = has_char-decimal n b' ' refl

unstarred-digit : (t : Text) → starts_digit t ≡ true → unstarred t ≡ t
unfolding strcmp_eq
unstarred-digit [] h = cc
unstarred-digit (c ∷ cs) h = ground arith

checked_port-decimal : (n : ℕ) → 0 < n → n < 65536 → checked_port (decimal n) ≡ some (decimal n)
unfolding checked_port
checked_port-decimal n pos small =
    let in_range : ltb 65535 n ≡ false = ground arith in
    let not_null : (n == 0) ≡ false = ground arith in
    rw (starts_digit-decimal n)
      (ap (number_port (decimal n)) (digits-decimal n (omega arith)) ∙ simp (in_range, not_null))

-- The result, by the tests and the parts
abbrev outcome : (blank long ok : Bool) → (host : Text) → (port : Option Text) → Split
outcome blank long ok host port =
    if blank then refused else if long then fault else if ok then with_port host port else refused

outcome_of :
    {b b2 l l2 o o2 : Bool} {h h2 : Text} {p p2 : Option Text}
    → b ≡ b2
    → l ≡ l2
    → o ≡ o2
    → h ≡ h2
    → p ≡ p2
    → outcome b l o h p ≡ outcome b2 l2 o2 h2 p2
outcome_of e1 e2 e3 e4 e5 = rw (e1, e2, e3, e4, e5) refl

if_split :
    (numeric : Bool) (h p : Text)
    → (if (if numeric then false else true) then split h p else refused)
      ≡ (if numeric then refused else split h p)
if_split true h p = refl
if_split false h p = refl

module _ (inet_aton : Text → Option IpAddr) where
  host_ok-numeric :
      (w host : Text)
      → (starts_digit host ≡ true → inet_aton w ≡ none)
      → host_ok inet_aton w host ≡ (if starts_digit host then false else true)
  unfolding host_ok
  host_ok-numeric w host e = elim (Bool-cases (starts_digit host)) [
    | inl y ↦ simp (y, e y)
    | inr n ↦ simp n
  ]

  -- A host without a blank or a colon, and a port number between 1 and 65535 behind a colon, with
  -- at most 255 bytes in all, are taken apart, where `*` stands for the empty host; but where the
  -- host begins with a digit, in which case the library is to read no address in the whole text
  -- with its port, the text is refused.
  pub str_get_hostport-parts :
      (h : Text) (n : ℕ)
      → has_char b' ' h ≡ false
      → has_char b':' h ≡ false
      → 0 < n
      → n < 65536
      → length (h ++ b':' ∷ decimal n) < 256
      → (starts_digit (unstarred h) ≡ true → inet_aton (h ++ b':' ∷ decimal n) ≡ none)
      → str_get_hostport inet_aton (h ++ b':' ∷ decimal n)
        ≡ (if starts_digit (unstarred h) then refused else split (unstarred h) (decimal n))
  unfolding str_get_hostport
  str_get_hostport-parts h n blank colon pos small short e =
      let w = h ++ b':' ∷ decimal n in
      let no_blank : has_char b' ' w ≡ false =
        has_char-append b' ' h (b':' ∷ decimal n) ∙ rw blank (blank_behind n) in
      let fits : leb 256 (length w) ≡ false = ground arith in
      let host : host_part w ≡ unstarred h =
        rw (has_colon h (decimal n))
          (ap (λ x. unstarred x.0) (at_colon-append h (decimal n) colon)) in
      let port : port_part w ≡ decimal n =
        ap (λ x. unstarred x.1) (at_colon-append h (decimal n) colon)
        ∙ unstarred-digit (decimal n) (starts_digit-decimal n) in
      let port_ok : checked_port (port_part w) ≡ some (decimal n) =
        ap checked_port port ∙ checked_port-decimal n pos small in
      let ok : host_ok inet_aton w (host_part w)
          ≡ (if starts_digit (unstarred h) then false else true) =
        ap (host_ok inet_aton w) host ∙ host_ok-numeric w (unstarred h) e in
      outcome_of no_blank fits ok host port_ok
      ∙ if_split (starts_digit (unstarred h)) (unstarred h) (decimal n)
