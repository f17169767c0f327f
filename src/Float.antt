-- ===== src/Float.antt =====
-- The floating-point numbers that the program computes with. They are a parameter: a type with the
-- operations of Go's `float64` that the source uses.
use sparkwrangler.Base.Int.{ℤ, pos}
use sparkwrangler.Base.{ℕ, Bool, false, ◌||◌, Option, Bytes, ◌≡◌}

pub record Float (F : Type 0) : Type 0 where
  -- `strconv.ParseFloat(text, 64)`; an error is `none`
  pub parse_float : Bytes → Option F
  pub is_nan : F → Bool
  pub is_inf : F → Bool
  -- `<`
  pub lt : F → F → Bool
  pub sub : F → F → F
  pub mul : F → F → F
  pub div : F → F → F
  -- `float64(n)` and `int(x)`
  pub of_int : ℤ → F
  pub to_int : F → ℤ
  -- `Duration.Seconds`, of a number of nanoseconds
  pub seconds : ℤ → F
  -- `fmt.Sprintf` with the verb `%.nf`
  pub format_fixed : ℕ → F → Bytes

module _ {F : Type 0} ⦃fl : Float F⦄ where
  -- What `encoding/json` refuses to encode.
  abbrev pub is_special : F → Bool
  is_special x = fl.is_nan x || fl.is_inf x

  abbrev pub IsFinite : F → Type 0
  IsFinite x = is_special x ≡ false

  abbrev pub zero_float : F
  zero_float = fl.of_int (pos 0)
