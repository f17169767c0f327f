-- ===== src/Text/Decimal.antt =====
-- `strconv.ParseInt` in base 10 with 64 bits, which is also `strconv.Atoi`, and the decimal print.
use sparkwrangler.Base.Int.{ℤ, pos, negsuc, neg}
use sparkwrangler.Base.{
  ℕ, zero, suc, ◌+◌, ◌-◌, ◌*◌, ◌/◌, ◌%◌, ◌^◌, ◌<◌, Bool, true, ◌&&◌, Option, none, some, [], ◌∷◌,
  ◌≡◌, arith, ltb, leb, ◌==◌, if◌then◌else◌, Bytes, ◌>>=◌, All, ◌∙◌, Bool-cases, inl, inr, ltb→lt,
  lt→ltb,
}

abbrev pub is_digit : ℕ → Bool
is_digit c = leb b'0' c && leb c b'9'

-- The number that digits spell behind `n`, if all bytes are digits.
digits_from : ℕ → Bytes → Option ℕ
digits_from n [] = some n
digits_from n (c ∷ s) = if is_digit c then digits_from (n * 10 + (c - b'0')) s else none

-- One or more digits.
unfoldable pub parse_digits : Bytes → Option ℕ
unfolding digits_from
parse_digits [] = none
parse_digits (c ∷ s) = digits_from 0 (c ∷ s)

abbrev in_range : ℕ → (ℕ → ℤ) → ℕ → Option ℤ
in_range limit sign n = if ltb n limit then some (sign n) else none

unfoldable pub parse_int64 : Bytes → Option ℤ
unfolding parse_digits
parse_int64 [] = none
parse_int64 (c ∷ s) =
    if c == b'-'
    then parse_digits s >>= in_range (2 ^ 63 + 1) neg
    else if c == b'+'
    then parse_digits s >>= in_range (2 ^ 63) pos
    else parse_digits (c ∷ s) >>= in_range (2 ^ 63) pos

-- The decimal print, last digit first into the output; a number below the fuel is printed whole.
digits : ℕ → ℕ → Bytes → Bytes
digits zero n out = out
digits (suc fuel) n out =
    let rest = digits fuel (n / 10) ((b'0' + n % 10) ∷ out) in
    if ltb n 10 then (b'0' + n) ∷ out else rest

unfoldable pub format_nat : ℕ → Bytes
unfolding digits
format_nat n = digits (suc n) n []

abbrev IsDigit : ℕ → Type 0
IsDigit c = is_digit c ≡ true

-- The verb `%d`.
unfoldable pub format_int : ℤ → Bytes
format_int (pos n) = format_nat n
format_int (negsuc n) = b'-' ∷ format_nat (suc n)

digits_from-last :
    (n : ℕ) (out : Bytes) → digits_from (n / 10) ((b'0' + n % 10) ∷ out) ≡ digits_from n out
unfolding digits_from
digits_from-last n out = ground arith

digits_from-one :
    (n : ℕ) (out : Bytes) → n < 10 → digits_from 0 ((b'0' + n) ∷ out) ≡ digits_from n out
unfolding digits_from
digits_from-one n out h = ground arith

-- Reading back the digits printed before `out` gives `n`, and then reads `out`.
digits_from-digits :
    (fuel n : ℕ) (out : Bytes) → n < fuel → digits_from 0 (digits fuel n out) ≡ digits_from n out
unfolding digits
digits_from-digits zero n out h = absurd (omega arith)
digits_from-digits (suc fuel) n out h = elim (Bool-cases (ltb n 10)) [
  | inl one ↦ rw one (digits_from-one n out (ltb→lt n 10 one))
  | inr more ↦ rw more (
      digits_from-digits fuel (n / 10) ((b'0' + n % 10) ∷ out) (ground arith)
      ∙ digits_from-last n out)
]

digits-IsDigit :
    (fuel n : ℕ) (out : Bytes) → n < fuel → All IsDigit out → All IsDigit (digits fuel n out)
unfolding digits
digits-IsDigit zero n out h k = absurd (omega arith)
digits-IsDigit (suc fuel) n out h k = elim (Bool-cases (ltb n 10)) [
  | inl one ↦ rw one (ground arith, k)
  | inr more ↦
      rw more
        (digits-IsDigit fuel (n / 10) ((b'0' + n % 10) ∷ out) (ground arith) (ground arith, k))
]

digits-cons :
    (fuel n : ℕ) (out : Bytes) → n < fuel → (c : ℕ) × (s : Bytes) × (digits fuel n out ≡ c ∷ s)
unfolding digits
digits-cons zero n out h = absurd (omega arith)
digits-cons (suc fuel) n out h = elim (Bool-cases (ltb n 10)) [
  | inl one ↦ (b'0' + n, out, rw one)
  | inr more ↦
      let (c, s, e) = digits-cons fuel (n / 10) ((b'0' + n % 10) ∷ out) (ground arith) in
      (c, s, rw more e)
]

-- A print is one or more digits.
pub format_nat_cons : (n : ℕ) → (c : ℕ) × (s : Bytes) × (format_nat n ≡ c ∷ s)
unfolding format_nat
format_nat_cons n = digits-cons (suc n) n [] (omega arith)

pub format_nat-IsDigit : (n : ℕ) → All (λ c. is_digit c ≡ true) (format_nat n)
unfolding format_nat
format_nat-IsDigit n = digits-IsDigit (suc n) n [] (omega arith) tt

parse_digits-format_nat : (n : ℕ) → parse_digits (format_nat n) ≡ some n
unfolding parse_digits format_nat
parse_digits-format_nat n =
    let (c, s, e) = digits-cons (suc n) n [] (omega arith) in
    rw e (rw e at (digits_from-digits (suc n) n [] (omega arith)))

parse_int64_digits :
    (c : ℕ) (s : Bytes)
    → is_digit c ≡ true
    → parse_int64 (c ∷ s) ≡ (parse_digits (c ∷ s) >>= in_range (2 ^ 63) pos)
unfolding parse_int64
parse_int64_digits c s h = ground arith

-- Every number that an `int64` holds is read back from its decimal print.
pub parse_int64-format_nat : (n : ℕ) → n < 2 ^ 63 → parse_int64 (format_nat n) ≡ some (pos n)
parse_int64-format_nat n h =
    let (c, s, e) = format_nat_cons n in
    let digit = rw e at (format_nat-IsDigit n) in
    let value = rw e at (parse_digits-format_nat n) in
    rw e (parse_int64_digits c s digit.0 ∙ rw value (rw (lt→ltb n (2 ^ 63) h)))
