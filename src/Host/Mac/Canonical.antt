-- ===== src/Host/Mac/Canonical.antt =====
-- A printed hardware address is in canonical form, and is parsed back.
use sparkwrangler.Base.{
  ℕ, ◌+◌, ◌*◌, ◌/◌, ◌%◌, ◌<◌, ◌≤◌, true, false, ◌||◌, Option, none, some, [], ◌∷◌, ◌≡◌, refl, ap,
  arith, ltb, ◌==◌, Bytes, length, get_or, All, inl, inr, Bool-cases, subst, >>=-eq-some,
  some_injective,
}
use sparkwrangler.Host.Mac.{
  hex_digit, hex_pair, colon_form, dot_form, is_address_length, checked_length, parse_mac,
  lower_hex, format_mac,
}

-- Bytes, in the number that an address has.
abbrev pub IsByte : ℕ → Type 0
IsByte x = x < 256

abbrev pub IsAddress : Bytes → Type 0
IsAddress hw = All IsByte hw × (is_address_length (length hw) ≡ true)

hex_digit-lower_hex : (d : ℕ) → d < 16 → hex_digit (lower_hex d) ≡ some d
unfolding hex_digit lower_hex
hex_digit-lower_hex d h = ground arith

hex_pair-lower_hex : (x : ℕ) → x < 256 → hex_pair (lower_hex (x / 16)) (lower_hex (x % 16)) ≡ some x
unfolding hex_pair
hex_pair-lower_hex x h =
    rw (hex_digit-lower_hex (x / 16) (omega arith), hex_digit-lower_hex (x % 16) (omega arith))
      (ap some (omega arith))

colon_form-format :
    (x : ℕ) (hw : Bytes)
    → All IsByte (x ∷ hw)
    → colon_form b':' (format_mac (x ∷ hw)) ≡ some (x ∷ hw)
unfolding colon_form format_mac
colon_form-format x [] h = rw (hex_pair-lower_hex x h.0)
colon_form-format x (y ∷ hw) h = rw (hex_pair-lower_hex x h.0, colon_form-format y hw h.1)

length-format_mac : (x : ℕ) (hw : Bytes) → length (format_mac (x ∷ hw)) + 1 ≡ 3 * length (x ∷ hw)
unfolding format_mac
length-format_mac x [] = refl
length-format_mac x (y ∷ hw) = omega (arith, length-format_mac y hw)

six_or_more : (n : ℕ) → is_address_length n ≡ true → 6 ≤ n
unfolding is_address_length
six_or_more n h = ground arith

separator : (x y : ℕ) (hw : Bytes) → get_or (format_mac (x ∷ y ∷ hw)) 2 0 ≡ b':'
unfolding format_mac
separator x y hw = refl

-- An address of six, eight or twenty bytes is parsed back from its print.
pub parse_mac-format : (hw : Bytes) → IsAddress hw → parse_mac (format_mac hw) ≡ some hw
unfolding parse_mac
parse_mac-format [] h = absurd (omega (arith, six_or_more 0 h.1))
parse_mac-format (x ∷ []) h = absurd (omega (arith, six_or_more 1 h.1))
parse_mac-format (x ∷ y ∷ hw) h =
    let long : ltb (length (format_mac (x ∷ y ∷ hw))) 14 ≡ false =
      ground (arith, length-format_mac x (y ∷ hw), six_or_more (length (x ∷ y ∷ hw)) h.1) in
    rw (long, separator x y hw, colon_form-format x (y ∷ hw) h.0, h.1)

hex_digit-lt : (c : ℕ) {d : ℕ} → hex_digit c ≡ some d → d < 16
unfolding hex_digit
hex_digit-lt c h = ground arith

hex_pair-lt : (a b : ℕ) {x : ℕ} → hex_pair a b ≡ some x → x < 256
unfolding hex_pair
hex_pair-lt a b h =
    let (hi, p, h') = >>=-eq-some (hex_digit a) _ h in
    let (lo, q, e) = >>=-eq-some (hex_digit b) _ h' in
    ground (arith, hex_digit-lt a p, hex_digit-lt b q)

colon_form-IsByte : (sep : ℕ) (s : Bytes) {hw : Bytes} → colon_form sep s ≡ some hw → All IsByte hw
unfolding colon_form
colon_form-IsByte sep [] h = cc
colon_form-IsByte sep (a ∷ []) h = cc
colon_form-IsByte sep (a ∷ b ∷ []) h =
    let (x, p, e) = >>=-eq-some (hex_pair a b) _ h in
    subst (All IsByte) (some_injective e) (hex_pair-lt a b p, tt)
colon_form-IsByte sep (a ∷ b ∷ c ∷ s) {hw} h = elim (Bool-cases (c == sep)) [
  | inl same ↦
      let (x, p, h') = >>=-eq-some (hex_pair a b) _ (rw same at h) in
      let (xs, q, e) = >>=-eq-some (colon_form sep s) _ h' in
      subst (All IsByte) (some_injective e) (hex_pair-lt a b p, colon_form-IsByte sep s q)
  | inr other ↦ cc (rw other at h)
]

dot_form-IsByte : (s : Bytes) {hw : Bytes} → dot_form s ≡ some hw → All IsByte hw
unfolding dot_form
dot_form-IsByte [] h = cc
dot_form-IsByte (a ∷ []) h = cc
dot_form-IsByte (a ∷ b ∷ []) h = cc
dot_form-IsByte (a ∷ b ∷ c ∷ []) h = cc
dot_form-IsByte (a ∷ b ∷ c ∷ d ∷ []) h =
    let (x, p, h') = >>=-eq-some (hex_pair a b) _ h in
    let (y, q, e) = >>=-eq-some (hex_pair c d) _ h' in
    subst (All IsByte) (some_injective e) (hex_pair-lt a b p, (hex_pair-lt c d q, tt))
dot_form-IsByte (a ∷ b ∷ c ∷ d ∷ k ∷ s) h = elim (Bool-cases (k == b'.')) [
  | inl same ↦
      let (x, p, h') = >>=-eq-some (hex_pair a b) _ (rw same at h) in
      let (y, q, h'') = >>=-eq-some (hex_pair c d) _ h' in
      let (xs, r, e) = >>=-eq-some (dot_form s) _ h'' in
      subst (All IsByte) (some_injective e)
        (hex_pair-lt a b p, (hex_pair-lt c d q, dot_form-IsByte s r))
  | inr other ↦ cc (rw other at h)
]

checked_length-IsAddress :
    (o : Option Bytes) {hw : Bytes}
    → ((bs : Bytes) → o ≡ some bs → All IsByte bs)
    → checked_length o ≡ some hw
    → IsAddress hw
unfolding checked_length
checked_length-IsAddress none h e = cc
checked_length-IsAddress (some bs) {hw} h e = elim (Bool-cases (is_address_length (length bs))) [
  | inl good ↦ subst IsAddress (some_injective (rw good at e)) (h bs refl, good)
  | inr bad ↦ cc (rw bad at e)
]

-- What is parsed is an address.
pub parse_mac-IsAddress : (s : Bytes) {hw : Bytes} → parse_mac s ≡ some hw → IsAddress hw
unfolding parse_mac
parse_mac-IsAddress s h = elim (Bool-cases (ltb (length s) 14)) [
  | inl short ↦ cc (rw short at h)
  | inr long ↦ elim (Bool-cases (get_or s 2 0 == b':' || get_or s 2 0 == b'-')) [
    | inl colons ↦
        checked_length-IsAddress (colon_form (get_or s 2 0) s) (λ bs e. colon_form-IsByte _ s e)
          (rw (long, colons) at h)
    | inr others ↦ elim (Bool-cases (get_or s 4 0 == b'.')) [
      | inl dots ↦
          checked_length-IsAddress (dot_form s) (λ bs e. dot_form-IsByte s e)
            (rw (long, others, dots) at h)
      | inr none_of ↦ cc (rw (long, others, none_of) at h)
    ]
  ]
]
