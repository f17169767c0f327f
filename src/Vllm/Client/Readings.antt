-- ===== src/Vllm/Client/Readings.antt =====
-- What a reading says of the server that it was taken from.
use sparkwrangler.Base.{
  true, Option, none, some, ◌≡◌, refl, arith, ◌==◌, codes, Result, ok, err, Bool-cases, inl, inr,
  Option-cases,
}
use sparkwrangler.Float.{Float, IsFinite}
use sparkwrangler.Text.Lines.{Input}
use sparkwrangler.Vllm.Client.{
  Http, Client, Response, ScrapeError, healthy, served_model, metrics, get, scrape, scanned,
  with_model, with_metrics, read,
}
use sparkwrangler.Vllm.Metrics.Grouping.{value-IsFinite}
use sparkwrangler.Vllm.Metrics.{Metrics, parse_metrics}
use sparkwrangler.Vllm.Names.{metric_preemptions, metric_kv_cache_usage, metric_generation_tokens}
use sparkwrangler.Vllm.Reading.{Reading, apply_metrics, zero_reading, overwrite}

module _ {F : Type 0} ⦃fl : Float F⦄ where
  abbrev pub IsFiniteOption : Option F → Type 0
  IsFiniteOption none = Unit
  IsFiniteOption (some x) = IsFinite x

  overwrite-IsFinite :
      (new old : Option F)
      → ((x : F) → new ≡ some x → IsFinite x)
      → IsFiniteOption old
      → IsFiniteOption (overwrite new old)
  overwrite-IsFinite none old h k = k
  overwrite-IsFinite (some x) old h k = h x refl

  -- The three readings that come straight from a metric.
  pub record HasFiniteMetrics (r : Reading F) : Type 0 where
    pub usage : IsFiniteOption r.kv_cache_usage
    pub preempted : IsFiniteOption r.preemptions
    pub generated : IsFiniteOption r.generation_tokens

  apply_metrics-HasFiniteMetrics :
      (r : Reading F) (b : Input) {m : Metrics F}
      → parse_metrics b ≡ ok m
      → HasFiniteMetrics r
      → HasFiniteMetrics (apply_metrics r m)
  unfolding apply_metrics
  apply_metrics-HasFiniteMetrics r b h k = record {
    usage = overwrite-IsFinite _ _ (λ x e. value-IsFinite b metric_kv_cache_usage h e) k.usage;
    preempted = overwrite-IsFinite _ _ (λ x e. value-IsFinite b metric_preemptions h e) k.preempted;
    generated =
        overwrite-IsFinite _ _ (λ x e. value-IsFinite b metric_generation_tokens h e) k.generated;
  }

  -- Successful metrics are what a body parsed to.
  scanned_ok :
      (b : Input) {m : Metrics F} → scanned (parse_metrics b) ≡ ok m → parse_metrics b ≡ ok m
  unfolding scanned
  scanned_ok b h = ground arith

  scrape_ok :
      (resp : Option Response) {m : Metrics F}
      → scrape resp ≡ ok m
      → (b : Input) × (parse_metrics b ≡ ok m)
  unfolding scrape
  scrape_ok none h = cc
  scrape_ok (some resp) h = elim (Bool-cases (resp.status == 200)) [
    | inl good ↦ (resp.body, scanned_ok resp.body (ground arith))
    | inr bad ↦ cc
  ]

  with_metrics-HasFiniteMetrics :
      (r : Reading F) (m : Result ScrapeError (Metrics F))
      → ((ms : Metrics F) → m ≡ ok ms → (b : Input) × (parse_metrics b ≡ ok ms))
      → HasFiniteMetrics r
      → HasFiniteMetrics (with_metrics r m)
  unfolding with_metrics
  with_metrics-HasFiniteMetrics r (err e) h k = k
  with_metrics-HasFiniteMetrics r (ok ms) h k =
      let (b, parsed) = h ms refl in
      apply_metrics-HasFiniteMetrics (record r { raw = ms }) b parsed
        (record { usage = k.usage; preempted = k.preempted; generated = k.generated })

  zero_reading-HasFiniteMetrics : HasFiniteMetrics zero_reading
  zero_reading-HasFiniteMetrics = record { usage = tt; preempted = tt; generated = tt }

  with_model-HasFiniteMetrics :
      (h : Http) (c : Client)
      → HasFiniteMetrics (with_model (record zero_reading { up = true }) (served_model h c))
  unfolding with_model
  with_model-HasFiniteMetrics h c = elim (Option-cases (served_model h c)) [
    | inl e ↦ rw e (record { usage = tt; preempted = tt; generated = tt })
    | inr (m, e) ↦ rw e (record { usage = tt; preempted = tt; generated = tt })
  ]

  metrics_ok :
      (h : Http) (c : Client) (m : Metrics F)
      → metrics h c ≡ ok m
      → (b : Input) × (parse_metrics b ≡ ok m)
  unfolding metrics
  metrics_ok h c m = scrape_ok (get h c (codes "/metrics"))

  -- Whatever the server answers, the cache usage, the preemptions and the generated tokens of a
  -- reading are absent or finite: no NaN and no infinity comes through the scrape.
  pub read-HasFiniteMetrics : (h : Http) (c : Client) → HasFiniteMetrics (read h c)
  unfolding read
  read-HasFiniteMetrics h c = elim (Bool-cases (healthy h c)) [
    | inl up ↦ rw up (
        with_metrics-HasFiniteMetrics _ (metrics h c) (metrics_ok h c)
          (with_model-HasFiniteMetrics h c))
    | inr down ↦ rw down zero_reading-HasFiniteMetrics
  ]
