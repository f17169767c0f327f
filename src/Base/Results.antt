-- ===== src/Base/Results.antt =====
-- The Go convention `(value, error)`, where an error leaves no value to use.
use mathlib.Core.Path.{◌≡◌}

pub data Result {ℓ} (E A : Type ℓ) : Type ℓ where
  ok : A → Result E A
  err : E → Result E A

module _ {ℓ} {E A : Type ℓ} where
  pub ok_injective : {a b : A} → ◌≡◌ {A = Result E A} (ok a) (ok b) → a ≡ b
  ok_injective h = cc

  pub err_injective : {a b : E} → ◌≡◌ {A = Result E A} (err a) (err b) → a ≡ b
  err_injective h = cc
