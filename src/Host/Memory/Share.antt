-- ===== src/Host/Memory/Share.antt =====
-- The percentage of the memory that is in use.
use sparkwrangler.Base.Int.{ℤ, pos, sub_pos_pos, wrap64_id, leb_ℤ}
use sparkwrangler.Base.{ℕ, ◌-◌, ◌^◌, ◌<◌, ◌≤◌, true, Option, none, some, ◌≡◌, refl, arith, ◌↔◌}
use sparkwrangler.Float.{Float}
use sparkwrangler.Host.Memory.{Memory, used_of, used_pct}

-- No percentage can be formed of the two numbers.
abbrev pub IsUnknown : Option ℤ → Option ℤ → Type 0
IsUnknown (some t) (some a) = leb_ℤ t (pos 0) ≡ true
IsUnknown (some t) none = Unit
IsUnknown none a = Unit

module _ {F : Type 0} ⦃fl : Float F⦄ where
  used_of_iff : (t a : Option ℤ) → (used_of {F = F} t a ≡ none) ↔ IsUnknown t a
  unfolding used_of
  used_of_iff (some t) (some a) = ((λ h. ground arith), (λ h. ground arith))
  used_of_iff (some t) none = ((λ h. tt), (λ h. refl))
  used_of_iff none a = ((λ h. tt), (λ h. refl))

  -- The percentage is absent exactly if one of the numbers is, or the total is not positive.
  pub used_pct_iff :
      (m : Memory) → (used_pct {F = F} m ≡ none) ↔ IsUnknown m.total_bytes m.available_bytes
  unfolding used_pct
  used_pct_iff m = used_of_iff m.total_bytes m.available_bytes

  -- Of a total and a smaller part that is available it is the rest in relation to the total, with no
  -- wrap-around in the difference.
  pub used_pct_value :
      (t a : ℕ)
      → 0 < t
      → a ≤ t
      → t < 2 ^ 63
      → used_pct (record { total_bytes = some (pos t); available_bytes = some (pos a) })
        ≡ some (fl.mul (fl.div (fl.of_int (pos (t - a))) (fl.of_int (pos t))) (fl.of_int (pos 100)))
  unfolding used_pct
  used_pct_value t a ht ha hm =
      rw (sub_pos_pos t a ha, wrap64_id (pos (t - a)) (omega arith)) (ground arith)
