-- ===== src/Publisher/State/Rate.antt =====
-- The token rate, and the state of an engine that is down.
use sparkwrangler.Base.Int.{ℤ, pos, ◌<ℤ◌}
use sparkwrangler.Base.{false, Option, none, some, ◌≡◌, ◌↔◌, refl, arith}
use sparkwrangler.Float.{Float, zero_float}
use sparkwrangler.Publisher.State.{token_rate, counter_rate}
use sparkwrangler.Vllm.Reading.{Reading}

module _ {F : Type 0} ⦃fl : Float F⦄ where
  -- Two readings between which the counter `total` grew to `later` in a positive time.
  pub record Advances (r : Reading F) (prev : Option (Reading F)) (elapsed : ℤ) (rate : F)
      : Type 0 where
    pub before : Reading F
    pub total : F
    pub later : F
    pub previous : prev ≡ some before
    pub counted : before.generation_tokens ≡ some total
    pub recounted : r.generation_tokens ≡ some later
    pub passed : pos 0 <ℤ elapsed
    pub no_restart : fl.lt (fl.sub later total) zero_float ≡ false
    pub rated : rate ≡ fl.div (fl.sub later total) (fl.seconds elapsed)

  counter_rate-some :
      (elapsed : ℤ) (a b : Option F) {rate : F}
      → counter_rate elapsed a b ≡ some rate
      → (later : F) × (total : F) × (a ≡ some later)
        × (b ≡ some total)
        × (pos 0 <ℤ elapsed)
        × (fl.lt (fl.sub later total) zero_float ≡ false)
        × (rate ≡ fl.div (fl.sub later total) (fl.seconds elapsed))
  unfolding counter_rate
  counter_rate-some elapsed none b h = cc
  counter_rate-some elapsed (some later) none h = cc
  counter_rate-some elapsed (some later) (some total) h =
      (later, total, refl, refl, ground arith, ground arith, ground arith)

  token_rate-Advances :
      (r : Reading F) (prev : Option (Reading F)) (elapsed : ℤ) {rate : F}
      → token_rate r prev elapsed ≡ some rate
      → Advances r prev elapsed rate
  unfolding token_rate
  token_rate-Advances r none elapsed h = cc
  token_rate-Advances r (some p) elapsed h =
      let (later, total, a, b, t, d, e) = counter_rate-some elapsed _ _ h in
      record {
        before = p;
        total = total;
        later = later;
        previous = refl;
        counted = b;
        recounted = a;
        passed = t;
        no_restart = d;
        rated = e;
      }

  Advances-token_rate :
      (r : Reading F) (prev : Option (Reading F)) (elapsed : ℤ) (rate : F)
      → Advances r prev elapsed rate
      → token_rate r prev elapsed ≡ some rate
  unfolding token_rate counter_rate
  Advances-token_rate r prev elapsed rate a =
      rw a.previous (rw (a.recounted, a.counted, a.rated) (ground (arith, a.passed, a.no_restart)))

  -- A rate is published exactly if there was an earlier reading, both readings carry the counter, the
  -- time between them is positive and the counter did not go backwards; the rate is then the growth
  -- over the seconds that passed.
  pub token_rate_iff :
      (r : Reading F) (prev : Option (Reading F)) (elapsed : ℤ) (rate : F)
      → (token_rate r prev elapsed ≡ some rate) ↔ Advances r prev elapsed rate
  token_rate_iff r prev elapsed rate =
      (token_rate-Advances r prev elapsed, Advances-token_rate r prev elapsed rate)
