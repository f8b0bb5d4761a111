-- ===== src/Config/Values/Decimal.antt =====
-- `str_get_int` on the digits that `%d` prints.
use bootd.Base.{
  ℕ, zero, suc, ◌+◌, ◌-◌, ◌*◌, ◌/◌, ◌%◌, ◌<◌, ◌≡◌, refl, ap, ◌∙◌, inl, inr, true, false, Bool-cases,
  some, [], ◌∷◌, ◌==◌, ltb, min, Text, pos, arith,
}
use bootd.Services.Names.{decimal, digits_onto}
use bootd.Config.Values.Numbers.{
  is_space, is_digit, digits, to_int, signed, whole, starts_digit, unsigned, after_space,
  skip_space, str_get_int,
}

-- 10 to this power
abbrev tens : ℕ → ℕ
tens zero = 1
tens (suc k) = 10 * tens k

digits-digit :
    (a m : ℕ) (acc : Text) → m < 10 → digits a ((b'0' + m) ∷ acc) ≡ digits (10 * a + m) acc
unfolding digits
digits-digit a m acc h =
    let is : is_digit (b'0' + m) ≡ true = ground arith in
    let back : b'0' + m - b'0' ≡ m = omega arith in simp (is, back)

-- The digits of a number in front of others
digits-digits_onto :
    (k n : ℕ) (acc : Text) → n < tens k → digits 0 (digits_onto k n acc) ≡ digits n acc
unfolding digits_onto
digits-digits_onto zero n acc h = let is : n ≡ 0 = omega arith in rw is refl
digits-digits_onto (suc k) n acc h = elim (Bool-cases (ltb n 10)) [
  | inl y ↦
      let plus : 10 * 0 + n ≡ n = omega arith in
      rw y (digits-digit 0 n acc (ground arith) ∙ ap (λ x. digits x acc) plus)
  | inr more ↦
      let split : 10 * (n / 10) + n % 10 ≡ n = omega arith in
      rw more (
        digits-digits_onto k (n / 10) _ (omega arith)
        ∙ digits-digit (n / 10) (n % 10) acc (omega arith)
        ∙ ap (λ x. digits x acc) split)
]

starts_digit-digits_onto :
    (k n : ℕ) (acc : Text) → starts_digit acc ≡ true → starts_digit (digits_onto k n acc) ≡ true
unfolding digits_onto
starts_digit-digits_onto zero n acc h = h
starts_digit-digits_onto (suc k) n acc h = elim (Bool-cases (ltb n 10)) [
  | inl y ↦ rw y (ground arith)
  | inr more ↦ rw more (starts_digit-digits_onto k (n / 10) _ (ground arith))
]

pub starts_digit-decimal : (n : ℕ) → starts_digit (decimal n) ≡ true
unfolding decimal digits_onto
starts_digit-decimal n = elim (Bool-cases (ltb n 10)) [
  | inl y ↦ rw y (ground arith)
  | inr more ↦ rw more (starts_digit-digits_onto 9 (n / 10) _ (ground arith))
]

str_get_int-unsigned : (t : Text) → starts_digit t ≡ true → str_get_int t ≡ whole false (digits 0 t)
unfolding str_get_int skip_space after_space unsigned is_space
str_get_int-unsigned [] h = cc
str_get_int-unsigned (c ∷ cs) h =
    let s1 : is_space c ≡ false = ground arith in
    let s2 : (c == b'-') ≡ false = ground arith in
    let s3 : (c == b'+') ≡ false = ground arith in simp (s1, s2, s3, h)

signed-small : (n : ℕ) → n < 0x80000000 → signed false n ≡ pos n
unfolding signed to_int
signed-small n h =
    let cut : min n 0x7fffffffffffffff ≡ n = omega arith in
    let low : n % 0x100000000 ≡ n = omega arith in
    let lt : ltb n 0x80000000 ≡ true = ground arith in simp (cut, low, lt)

pub digits-decimal : (n : ℕ) → n < 10000000000 → digits 0 (decimal n) ≡ (n, [])
unfolding decimal digits
digits-decimal n h = digits-digits_onto 10 n [] (omega arith)

-- The decimal digits of a number below 2^31 are read back as that number.
pub str_get_int-decimal : (n : ℕ) → n < 0x80000000 → str_get_int (decimal n) ≡ some (pos n)
str_get_int-decimal n h =
    str_get_int-unsigned (decimal n) (starts_digit-decimal n)
    ∙ ap (whole false) (digits-decimal n (omega arith))
    ∙ ap some (signed-small n h)
