-- ===== src/Config/Load/Valid.antt =====
-- What a configuration that loads is known to satisfy.
use sparkwrangler.Base.Int.{ℤ, pos, ltb_ℤ, ◌≤ℤ◌}
use sparkwrangler.Base.{
  Bool, false, ◌||◌, List, [], ◌∷◌, ◌≡◌, ◌≢◌, refl, arith, Bytes, Result, ok, err, Bool-cases, inl,
  inr, ok_injective, sym, ◌↔◌,
}
use sparkwrangler.Config.Flags.{Parsers, FlagSet, FlagError}
use sparkwrangler.Config.Load.{Config, second, is_blank, validate, bound, load_flags, load}
use sparkwrangler.Sdnotify.{Env}

-- A node has an identifier, publishes at most once a second, and uses a quality of service that
-- exists.
pub record IsValid (c : Config) : Type 0 where
  pub node_id : c.node_id ≢ []
  pub interval : second ≤ℤ c.interval
  pub qos_from : pos 0 ≤ℤ c.qos
  pub qos_to : c.qos ≤ℤ pos 2

is_blank-false : (s : Bytes) → is_blank s ≡ false → s ≢ []
unfolding is_blank
is_blank-false [] h = cc
is_blank-false (c ∷ s) h = λ e. cc

is_blank-ne : (s : Bytes) → s ≢ [] → is_blank s ≡ false
unfolding is_blank
is_blank-ne [] h = absurd (h refl)
is_blank-ne (c ∷ s) h = refl

le_of_not_lt : (a b : ℤ) → ltb_ℤ a b ≡ false → b ≤ℤ a
le_of_not_lt a b h = ground arith

not_lt_of_le : (a b : ℤ) → b ≤ℤ a → ltb_ℤ a b ≡ false
not_lt_of_le a b h = ground arith

or_false : (a b : Bool) → (a || b) ≡ false → (a ≡ false) × (b ≡ false)
or_false a b h = ground arith

validate_ok : (c : Config) {d : Config} → validate c ≡ ok d → (d ≡ c) × IsValid c
unfolding validate
validate_ok c h = elim (Bool-cases (is_blank c.node_id)) [
  | inl blank ↦ cc (rw blank at h)
  | inr named ↦ elim (Bool-cases (ltb_ℤ c.interval second)) [
    | inl short ↦ cc (rw (named, short) at h)
    | inr slow ↦ elim (Bool-cases (ltb_ℤ c.qos (pos 0) || ltb_ℤ (pos 2) c.qos)) [
      | inl bad ↦ cc (rw (named, slow, bad) at h)
      | inr good ↦
          let (low, high) = or_false _ _ good in
          (
            sym (ok_injective (rw (named, slow, good) at h)),
            record {
              node_id = is_blank-false c.node_id named;
              interval = le_of_not_lt c.interval second slow;
              qos_from = le_of_not_lt c.qos (pos 0) low;
              qos_to = le_of_not_lt (pos 2) c.qos high;
            },
          )
    ]
  ]
]

validate-IsValid : (c : Config) → IsValid c → validate c ≡ ok c
unfolding validate
validate-IsValid c v = rw (
  is_blank-ne c.node_id v.node_id,
  not_lt_of_le c.interval second v.interval,
  not_lt_of_le c.qos (pos 0) v.qos_from,
  not_lt_of_le (pos 2) c.qos v.qos_to,
)

-- A configuration is accepted exactly if it is valid, and is then returned as it is.
pub validate_iff : (c : Config) → (validate c ≡ ok c) ↔ IsValid c
validate_iff c = ((λ h. (validate_ok c h).1), validate-IsValid c)

pub load_flags_ok :
    (r : Result FlagError FlagSet) {c : Config}
    → load_flags r ≡ ok c
    → (fs : FlagSet) × (r ≡ ok fs) × (c ≡ bound fs) × IsValid c
unfolding load_flags
load_flags_ok (err e) h = cc
load_flags_ok (ok fs) h = let (same, v) = validate_ok (bound fs) h in (fs, refl, same, rw same v)

-- Whatever the flags, the environment and the host are, a configuration that loads is valid.
pub load-IsValid :
    (p : Parsers) (e : Env) (hostname : Bytes) (args : List Bytes) {c : Config}
    → load p e hostname args ≡ ok c
    → IsValid c
unfolding load
load-IsValid p e hostname args h = (load_flags_ok _ h).3
