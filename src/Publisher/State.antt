-- ===== src/Publisher/State.antt =====
-- internal/publisher/state.go: the state document and the half of it that an engine fills.
pub mod Rate
pub mod Engine
pub mod Host
use sparkwrangler.Base.Int.{ℤ, pos, ltb_ℤ, leb_ℤ}
use sparkwrangler.Base.{Bool, true, false, Option, none, some, [], if◌then◌else◌, Bytes}
use sparkwrangler.Float.{Float, zero_float}
use sparkwrangler.Vllm.Reading.{Reading, map_option}

-- A nil pointer is `none`, and an omitted text is the empty one.
pub record State (F : Type 0) : Type 0 where
  pub vllm_up : Option Bool
  pub model : Bytes
  pub kv_cache_usage_pct : Option F
  pub requests_running : Option ℤ
  pub requests_waiting : Option ℤ
  pub waiting_for_capacity : Option ℤ
  pub preemptions : Option F
  pub prefix_cache_hit_rate_pct : Option F
  pub generation_tokens_per_second : Option F
  pub max_model_len : Option ℤ
  pub kv_cache_tokens : Option ℤ
  pub max_concurrency : Option F
  pub prefix_caching_enabled : Option Bool
  pub gpu_utilization_pct : Option F
  pub gpu_clock_mhz : Option F
  pub gpu_temperature_c : Option F
  pub gpu_power_w : Option F
  pub memory_available_bytes : Option ℤ
  pub memory_used_pct : Option F
  pub mac_address : Bytes
  pub last_seen : Bytes

module _ {F : Type 0} where
  -- `State{LastSeen: …}`; the text of the present time is an argument.
  unfoldable pub worker_state : Bytes → State F
  worker_state now = record {
    vllm_up = none;
    model = [];
    kv_cache_usage_pct = none;
    requests_running = none;
    requests_waiting = none;
    waiting_for_capacity = none;
    preemptions = none;
    prefix_cache_hit_rate_pct = none;
    generation_tokens_per_second = none;
    max_model_len = none;
    kv_cache_tokens = none;
    max_concurrency = none;
    prefix_caching_enabled = none;
    gpu_utilization_pct = none;
    gpu_clock_mhz = none;
    gpu_temperature_c = none;
    gpu_power_w = none;
    memory_available_bytes = none;
    memory_used_pct = none;
    mac_address = [];
    last_seen = now;
  }

-- `if n > 0 { s.field = &n }`
pub positive : ℤ → Option ℤ
positive n = if ltb_ℤ (pos 0) n then some n else none

module _ {F : Type 0} ⦃fl : Float F⦄ where
  unfoldable pub pct : F → F
  pct fraction = fl.mul fraction (fl.of_int (pos 100))

  -- The last two tests of `tokenRate`, on the two counters.
  pub counter_rate : ℤ → Option F → Option F → Option F
  counter_rate elapsed none before = none
  counter_rate elapsed (some total) none = none
  counter_rate elapsed (some total) (some before) =
      let delta = fl.sub total before in
      if leb_ℤ elapsed (pos 0)
      then none
      else if fl.lt delta zero_float
      then none
      else some (fl.div delta (fl.seconds elapsed))

  unfoldable pub token_rate : Reading F → Option (Reading F) → ℤ → Option F
  unfolding counter_rate
  token_rate r none elapsed = none
  token_rate r (some prev) elapsed = counter_rate elapsed r.generation_tokens prev.generation_tokens

  pub positive_float : F → Option F
  positive_float x = if fl.lt zero_float x then some x else none

  -- The literal that `FromVLLM` starts from.
  initial_state : Bytes → Reading F → State F
  unfolding worker_state
  initial_state now r = record (worker_state now) {
    vllm_up = some r.up;
    model = r.model;
    prefix_caching_enabled = r.prefix_caching_on;
  }

  unfoldable pub from_vllm : Bytes → Reading F → Option (Reading F) → ℤ → State F
  unfolding positive positive_float initial_state
  from_vllm now r prev elapsed =
      let s = initial_state now r in
      if r.up
      then record s {
        max_model_len = positive r.max_model_len;
        kv_cache_tokens = positive r.kv_cache_tokens;
        max_concurrency = positive_float r.max_concurrency;
        requests_running = r.requests_running;
        requests_waiting = r.requests_waiting;
        waiting_for_capacity = r.waiting_for_capacity;
        preemptions = r.preemptions;
        kv_cache_usage_pct = map_option pct r.kv_cache_usage;
        prefix_cache_hit_rate_pct = map_option pct r.prefix_cache_hit_rate;
        generation_tokens_per_second = token_rate r prev elapsed;
      }
      else s
