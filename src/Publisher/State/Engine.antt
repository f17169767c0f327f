-- ===== src/Publisher/State/Engine.antt =====
-- The half of a state that an engine fills, against the scrapes that it comes from.
use sparkwrangler.Base.Int.{ℤ, pos}
use sparkwrangler.Base.{refl, false, Bool, true, Option, none, some, List, ◌≡◌, ap, Bytes, codes}
use sparkwrangler.Float.{Float, zero_float}
use sparkwrangler.Publisher.State.{
  State, from_vllm, worker_state, initial_state, positive, positive_float, pct, counter_rate,
  token_rate,
}
use sparkwrangler.Text.Decimal.{parse_int64}
use sparkwrangler.Vllm.Client.Scraped.{first_number, served_as, Reports, unmeasured}
use sparkwrangler.Vllm.Client.{ServedModel}
use sparkwrangler.Vllm.Metrics.Labelled.{label_text, number_where}
use sparkwrangler.Vllm.Metrics.Scrape.{Series}
use sparkwrangler.Vllm.Names.{
  metric_preemptions, metric_kv_cache_usage, metric_requests_running, metric_requests_waiting,
  metric_generation_tokens, metric_waiting_by_reason, metric_prefix_queries, metric_prefix_hits,
  metric_cache_config,
}
use sparkwrangler.Vllm.Reading.{Reading, overwrite_value, and_then, map_option, hit_rate, is_true}

-- The half of a state that an engine fills.
pub record Engine (F : Type 0) : Type 0 where
  pub up : Option Bool
  pub model : Bytes
  pub usage : Option F
  pub running : Option ℤ
  pub waiting : Option ℤ
  pub capacity : Option ℤ
  pub preempted : Option F
  pub hits : Option F
  pub generated : Option F
  pub len : Option ℤ
  pub tokens : Option ℤ
  pub concurrency : Option F
  pub caching : Option Bool

module _ {F : Type 0} where
  abbrev pub engine : State F → Engine F
  engine s = record {
    up = s.vllm_up;
    model = s.model;
    usage = s.kv_cache_usage_pct;
    running = s.requests_running;
    waiting = s.requests_waiting;
    capacity = s.waiting_for_capacity;
    preempted = s.preemptions;
    hits = s.prefix_cache_hit_rate_pct;
    generated = s.generation_tokens_per_second;
    len = s.max_model_len;
    tokens = s.kv_cache_tokens;
    concurrency = s.max_concurrency;
    caching = s.prefix_caching_enabled;
  }

  -- An engine that only says whether it is up, and nothing else, or not even that.
  abbrev pub silent : Option Bool → Bytes → Option Bool → Engine F
  silent up model caching = record {
    up = up;
    model = model;
    usage = none;
    running = none;
    waiting = none;
    capacity = none;
    preempted = none;
    hits = none;
    generated = none;
    len = none;
    tokens = none;
    concurrency = none;
    caching = caching;
  }

module _ {F : Type 0} ⦃fl : Float F⦄ where
  -- What a state says of an engine that serves a model and prints some series, an earlier scrape of which
  -- had other ones: the counts as they are, the shares as percentages, the sizes if they are positive, and
  -- the rate of the generated tokens over the time between the scrapes.
  abbrev pub reported : Option ServedModel → List (Series F) → List (Series F) → ℤ → Engine F
  reported served ss earlier elapsed = record {
    up = some true;
    model = (served_as served).0;
    usage = map_option pct (first_number metric_kv_cache_usage ss);
    running = map_option fl.to_int (first_number metric_requests_running ss);
    waiting = map_option fl.to_int (first_number metric_requests_waiting ss);
    capacity =
        map_option fl.to_int
          (number_where metric_waiting_by_reason (codes "reason") (codes "capacity") ss);
    preempted = first_number metric_preemptions ss;
    hits =
        map_option pct
          (hit_rate (first_number metric_prefix_queries ss) (first_number metric_prefix_hits ss));
    generated =
        counter_rate elapsed (first_number metric_generation_tokens ss)
          (first_number metric_generation_tokens earlier);
    len = positive (served_as served).1;
    tokens = positive (
        overwrite_value
          (and_then parse_int64 (label_text metric_cache_config (codes "kv_cache_size_tokens") ss))
          (pos 0));
    concurrency = positive_float (
        overwrite_value
          (and_then fl.parse_float
            (label_text metric_cache_config (codes "kv_cache_max_concurrency") ss))
          zero_float);
    caching =
        map_option is_true (label_text metric_cache_config (codes "enable_prefix_caching") ss);
  }

  -- The state of a reading of such a scrape.
  pub engine-from_vllm :
      (clock : Bytes) (r before : Reading F) (served : Option ServedModel)
      (ss earlier : List (Series F)) (elapsed : ℤ)
      → Reports r served ss
      → before.generation_tokens ≡ first_number metric_generation_tokens earlier
      → engine (from_vllm clock r (some before) elapsed) ≡ reported served ss earlier elapsed
  unfolding from_vllm initial_state worker_state token_rate
  engine-from_vllm clock r before served ss earlier elapsed v k = rw (
    v.is_up,
    ap (λ (m : Bytes × ℤ). m.0) v.model,
    ap (λ (m : Bytes × ℤ). m.1) v.model,
    v.usage,
    v.running,
    v.waiting,
    v.capacity,
    v.preempted,
    v.generated,
    v.hits,
    v.caching,
    v.tokens,
    v.concurrency,
    k,
  )

  -- The state of an engine that is up and gives no metrics: which model it serves, and nothing else.
  abbrev pub unmetered : Option ServedModel → Engine F
  unmetered served = record (silent (some true) (served_as served).0 none) {
    len = positive (served_as served).1;
  }

  token_rate-uncounted :
      (r : Reading F) (prev : Option (Reading F)) (elapsed : ℤ)
      → r.generation_tokens ≡ none
      → token_rate r prev elapsed ≡ none
  unfolding token_rate counter_rate
  token_rate-uncounted r none elapsed h = refl
  token_rate-uncounted r (some p) elapsed h = rw h refl

  pub engine-unmeasured :
      (clock : Bytes) (served : Option ServedModel) (prev : Option (Reading F)) (elapsed : ℤ)
      → fl.lt zero_float zero_float ≡ false
      → engine (from_vllm clock (unmeasured served) prev elapsed) ≡ unmetered served
  unfolding from_vllm initial_state worker_state positive positive_float
  engine-unmeasured clock served prev elapsed irreflexive =
      rw (irreflexive, token_rate-uncounted (unmeasured served) prev elapsed refl) refl
