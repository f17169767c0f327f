-- ===== src/Vllm/Reading.antt =====
-- `Reading` and `applyMetrics` of internal/vllm/client.go.
use sparkwrangler.Base.Int.{ℤ, pos}
use sparkwrangler.Base.{
  Bool, false, ◌||◌, Option, none, some, [], ◌∷◌, if◌then◌else◌, Bytes, codes, equal,
}
use sparkwrangler.Float.{Float, zero_float}
use sparkwrangler.Text.Decimal.{parse_int64}
use sparkwrangler.Vllm.Metrics.{Metrics, value, value_where, label}
use sparkwrangler.Vllm.Names.{
  metric_preemptions, metric_kv_cache_usage, metric_requests_running, metric_requests_waiting,
  metric_waiting_by_reason, metric_generation_tokens, metric_prefix_queries, metric_prefix_hits,
  metric_cache_config,
}

-- One observation of a server. A pointer is an `Option`, and the nil map of metrics is `[]`.
pub record Reading (F : Type 0) : Type 0 where
  pub up : Bool
  pub model : Bytes
  pub max_model_len : ℤ
  pub kv_cache_usage : Option F
  pub kv_cache_tokens : ℤ
  pub max_concurrency : F
  pub requests_running : Option ℤ
  pub requests_waiting : Option ℤ
  pub waiting_for_capacity : Option ℤ
  pub preemptions : Option F
  pub prefix_cache_hit_rate : Option F
  pub prefix_caching_on : Option Bool
  pub generation_tokens : Option F
  pub raw : Metrics F

-- `if v, ok := …; ok { r.field = ptr(v) }`
abbrev pub overwrite {ℓ} : {A : Type ℓ} → Option A → Option A → Option A
overwrite (some v) old = some v
overwrite none old = old

-- `if v, ok := …; ok { r.field = v }`
abbrev pub overwrite_value {ℓ} : {A : Type ℓ} → Option A → A → A
overwrite_value (some v) old = v
overwrite_value none old = old

abbrev pub map_option {ℓ κ} : {A : Type ℓ} {B : Type κ} → (A → B) → Option A → Option B
map_option f none = none
map_option f (some a) = some (f a)

abbrev pub and_then {ℓ κ} : {A : Type ℓ} {B : Type κ} → (A → Option B) → Option A → Option B
and_then f none = none
and_then f (some a) = f a

pub is_true : Bytes → Bool
is_true v = equal v (codes "True") || equal v (codes "true")

module _ {F : Type 0} ⦃fl : Float F⦄ where
  -- `var r Reading`
  abbrev pub zero_reading : Reading F
  zero_reading = record {
    up = false;
    model = [];
    max_model_len = pos 0;
    kv_cache_usage = none;
    kv_cache_tokens = pos 0;
    max_concurrency = zero_float;
    requests_running = none;
    requests_waiting = none;
    waiting_for_capacity = none;
    preemptions = none;
    prefix_cache_hit_rate = none;
    prefix_caching_on = none;
    generation_tokens = none;
    raw = [];
  }

  -- `qok && hok && queries > 0`
  pub hit_rate : Option F → Option F → Option F
  hit_rate (some queries) (some hits) =
      if fl.lt zero_float queries then some (fl.div hits queries) else none
  hit_rate (some queries) none = none
  hit_rate none hits = none

  unfoldable pub apply_metrics : Reading F → Metrics F → Reading F
  unfolding hit_rate is_true
  apply_metrics r m = record r {
    kv_cache_usage = overwrite (value m metric_kv_cache_usage) r.kv_cache_usage;
    requests_running =
        overwrite (map_option fl.to_int (value m metric_requests_running)) r.requests_running;
    requests_waiting =
        overwrite (map_option fl.to_int (value m metric_requests_waiting)) r.requests_waiting;
    waiting_for_capacity =
        overwrite
          (map_option fl.to_int
            (value_where m metric_waiting_by_reason ((codes "reason", codes "capacity") ∷ [])))
          r.waiting_for_capacity;
    preemptions = overwrite (value m metric_preemptions) r.preemptions;
    generation_tokens = overwrite (value m metric_generation_tokens) r.generation_tokens;
    prefix_cache_hit_rate =
        overwrite (hit_rate (value m metric_prefix_queries) (value m metric_prefix_hits))
          r.prefix_cache_hit_rate;
    prefix_caching_on =
        overwrite (map_option is_true (label m metric_cache_config (codes "enable_prefix_caching")))
          r.prefix_caching_on;
    kv_cache_tokens =
        overwrite_value
          (and_then parse_int64 (label m metric_cache_config (codes "kv_cache_size_tokens")))
          r.kv_cache_tokens;
    max_concurrency =
        overwrite_value
          (and_then fl.parse_float (label m metric_cache_config (codes "kv_cache_max_concurrency")))
          r.max_concurrency;
  }
