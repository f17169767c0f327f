-- ===== src/Host/Mac.antt =====
-- Go's `net.ParseMAC` and `HardwareAddr.String`, which the network code reads addresses with.
pub mod Canonical
use sparkwrangler.Base.{
  ℕ, zero, suc, ◌+◌, ◌-◌, ◌*◌, ◌/◌, ◌%◌, Bool, true, false, not, ◌&&◌, ◌||◌, Option, none, some,
  List, [], ◌∷◌, ◌++◌, ltb, leb, ◌==◌, if◌then◌else◌, Bytes, length, get_or, ◌>>=◌,
}

hex_digit : ℕ → Option ℕ
hex_digit c =
    if leb b'0' c && leb c b'9'
    then some (c - b'0')
    else if leb b'a' c && leb c b'f'
    then some (c - b'a' + 10)
    else if leb b'A' c && leb c b'F'
    then some (c - b'A' + 10)
    else none

-- The value of two hexadecimal digits.
hex_pair : ℕ → ℕ → Option ℕ
unfolding hex_digit
hex_pair a b = do hi ← hex_digit a; lo ← hex_digit b; some (hi * 16 + lo)

-- `xx:xx:…` or `xx-xx-…`, with the same separator everywhere.
colon_form : ℕ → Bytes → Option Bytes
unfolding hex_pair
colon_form sep [] = none
colon_form sep (a ∷ []) = none
colon_form sep (a ∷ b ∷ []) = hex_pair a b >>= λ x. some (x ∷ [])
colon_form sep (a ∷ b ∷ c ∷ s) =
    let rest = colon_form sep s in
    if c == sep then hex_pair a b >>= (λ x. rest >>= λ xs. some (x ∷ xs)) else none

-- `xxxx.xxxx.…`
dot_form : Bytes → Option Bytes
unfolding hex_pair
dot_form [] = none
dot_form (a ∷ []) = none
dot_form (a ∷ b ∷ []) = none
dot_form (a ∷ b ∷ c ∷ []) = none
dot_form (a ∷ b ∷ c ∷ d ∷ []) = do x ← hex_pair a b; y ← hex_pair c d; some (x ∷ y ∷ [])
dot_form (a ∷ b ∷ c ∷ d ∷ e ∷ s) =
    let rest = dot_form s in
    if e == b'.'
    then hex_pair a b >>= (λ x. hex_pair c d >>= λ y. rest >>= λ xs. some (x ∷ y ∷ xs))
    else none

-- The lengths of an EUI-48, an EUI-64 and an InfiniBand address.
unfoldable pub is_address_length : ℕ → Bool
is_address_length n = n == 6 || n == 8 || n == 20

checked_length : Option Bytes → Option Bytes
unfolding is_address_length
checked_length none = none
checked_length (some hw) = if is_address_length (length hw) then some hw else none

-- `net.ParseMAC`
unfoldable pub parse_mac : Bytes → Option Bytes
unfolding colon_form dot_form checked_length
parse_mac s =
    if ltb (length s) 14
    then none
    else if get_or s 2 0 == b':' || get_or s 2 0 == b'-'
    then checked_length (colon_form (get_or s 2 0) s)
    else if get_or s 4 0 == b'.'
    then checked_length (dot_form s)
    else none

lower_hex : ℕ → ℕ
lower_hex d = if ltb d 10 then b'0' + d else b'a' + (d - 10)

-- `HardwareAddr.String`
unfoldable pub format_mac : Bytes → Bytes
unfolding lower_hex
format_mac [] = []
format_mac (x ∷ []) = lower_hex (x / 16) ∷ lower_hex (x % 16) ∷ []
format_mac (x ∷ y ∷ hw) = lower_hex (x / 16) ∷ lower_hex (x % 16) ∷ b':' ∷ format_mac (y ∷ hw)
