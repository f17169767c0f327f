-- ===== src/Tests/Numbers.antt =====
-- Numbers that the runs compute with: the integers, a NaN and an infinity.
use sparkwrangler.Base.Int.{ℤ, pos, ltb_ℤ, ◌-ℤ◌, ◌*ℤ◌}
use sparkwrangler.Base.{Bool, true, false, Option, none, some, Bytes, codes, equal, if◌then◌else◌}
use sparkwrangler.Float.{Float}
use sparkwrangler.Text.Decimal.{parse_int64, format_int}

pub data Number : Type 0 where
  nan : Number
  infinity : Number
  whole : ℤ → Number

abbrev pub finite : Option ℤ → Option Number
finite none = none
finite (some n) = some (whole n)

abbrev pub read_number : Bytes → Option Number
read_number s =
    if equal s (codes "NaN")
    then some nan
    else if equal s (codes "inf")
    then some infinity
    else finite (parse_int64 s)

abbrev pub is_nan : Number → Bool
is_nan nan = true
is_nan infinity = false
is_nan (whole n) = false

abbrev pub is_inf : Number → Bool
is_inf nan = false
is_inf infinity = true
is_inf (whole n) = false

abbrev pub less : Number → Number → Bool
less (whole m) (whole n) = ltb_ℤ m n
less (whole m) infinity = true
less _ _ = false

abbrev pub apply : (ℤ → ℤ → ℤ) → Number → Number → Number
apply f (whole m) (whole n) = whole (f m n)
apply f _ _ = nan

abbrev pub truncate : Number → ℤ
truncate (whole n) = n
truncate _ = pos 0

abbrev pub show : Number → Bytes
show (whole n) = format_int n
show nan = codes "NaN"
show infinity = codes "+Inf"

instance abbrev pub number_float : Float Number
number_float = record {
  parse_float = read_number;
  is_nan = is_nan;
  is_inf = is_inf;
  lt = less;
  sub = apply (λ m n. m -ℤ n);
  mul = apply (λ m n. m *ℤ n);
  div = apply (λ m n. m);
  of_int = whole;
  to_int = truncate;
  seconds = whole;
  format_fixed = λ d x. show x;
}
