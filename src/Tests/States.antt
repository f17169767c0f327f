-- ===== src/Tests/States.antt =====
-- Readings, states and their documents.
use sparkwrangler.Base.Int.{ℤ, pos, ◌-ℤ◌}
use sparkwrangler.Base.{true, none, some, ◌++◌, ◌≡◌, ◌↔◌, refl, codes, All, map, keys, Distinct}
use sparkwrangler.Discovery.Sensors.Contract.{
  keys_read, readers, sensors-readers, unique_ids-Distinct,
}
use sparkwrangler.Discovery.Sensors.Typing.{readers_of, fits, sensors-fits}
use sparkwrangler.Discovery.Sensors.{sensors}
use sparkwrangler.Publisher.Json.Encoding.{numbers, marshal_state_iff}
use sparkwrangler.Publisher.Json.Kinds.{kind}
use sparkwrangler.Publisher.Json.Members.{IsFull}
use sparkwrangler.Publisher.Json.RoundTrip.{read_state, read_state-members}
use sparkwrangler.Publisher.Json.{members, marshal_state}
use sparkwrangler.Publisher.State.Rate.{Advances, token_rate_iff}
use sparkwrangler.Publisher.State.{State, from_vllm, token_rate}
use sparkwrangler.Tests.Numbers.{Number, infinity, whole, number_float}
use sparkwrangler.Vllm.Client.Readings.{IsFiniteOption}
use sparkwrangler.Vllm.Reading.{Reading, zero_reading}

abbrev counted : ℤ → Reading Number
counted n = record zero_reading { up = true; generation_tokens = some (whole n) }

token_rate_iff_example :
    (token_rate (counted (pos 30)) (some (counted (pos 10))) (pos 5) ≡ some (whole (pos 20)))
    ↔ Advances (counted (pos 30)) (some (counted (pos 10))) (pos 5) (whole (pos 20))
token_rate_iff_example =
    token_rate_iff (counted (pos 30)) (some (counted (pos 10))) (pos 5) (whole (pos 20))

-- A rate, a counter that restarted, and a round that took no time.
token_rates :
    (token_rate (counted (pos 30)) (some (counted (pos 10))) (pos 5) ≡ some (whole (pos 20)))
    × (token_rate (counted (pos 3)) (some (counted (pos 10))) (pos 5) ≡ none)
    × (token_rate (counted (pos 30)) (some (counted (pos 10))) (pos 0) ≡ none)
    × (token_rate (counted (pos 30)) none (pos 5) ≡ none)
unfolding token_rate ◌-ℤ◌
token_rates = (refl, refl, refl, refl)

abbrev boundless : Reading Number
boundless = record (counted (pos 30)) { max_concurrency = infinity }

abbrev serving : State Number
serving = from_vllm (codes "now") boundless none (pos 0)

marshal_state_iff_example :
    ((marshal_state serving ≡ some (members serving)) ↔ All IsFiniteOption (numbers serving))
    × ((marshal_state serving ≡ none) ↔ (¬ All IsFiniteOption (numbers serving)))
marshal_state_iff_example = marshal_state_iff serving

read_state-members_example : read_state (members serving) ≡ serving
read_state-members_example = read_state-members serving

-- A state in which nothing is missing.
abbrev complete : State Number
complete = record {
  vllm_up = some true;
  model = codes "model";
  kv_cache_usage_pct = some (whole (pos 40));
  requests_running = some (pos 1);
  requests_waiting = some (pos 2);
  waiting_for_capacity = some (pos 0);
  preemptions = some (whole (pos 0));
  prefix_cache_hit_rate_pct = some (whole (pos 60));
  generation_tokens_per_second = some (whole (pos 20));
  max_model_len = some (pos 4096);
  kv_cache_tokens = some (pos 8192);
  max_concurrency = some (whole (pos 2));
  prefix_caching_enabled = some true;
  gpu_utilization_pct = some (whole (pos 90));
  gpu_clock_mhz = some (whole (pos 1500));
  gpu_temperature_c = some (whole (pos 70));
  gpu_power_w = some (whole (pos 120));
  memory_available_bytes = some (pos 1024);
  memory_used_pct = some (whole (pos 30));
  mac_address = codes "02:00:00:00:00:01";
  last_seen = codes "now";
}

complete-IsFull : IsFull true complete
complete-IsFull = (
  record {
    up = refl;
    model = λ e. cc;
    usage = refl;
    running = refl;
    waiting = refl;
    capacity = refl;
    preempted = refl;
    hits = refl;
    generated = refl;
    len = refl;
    tokens = refl;
    concurrency = refl;
    caching = refl;
  },
  record {
    utilization = refl;
    clock = refl;
    temperature = refl;
    power = refl;
    available = refl;
    used = refl;
    mac = λ e. cc;
  },
)

sensors-readers_example :
    All (λ e. keys_read e.1 (keys (members complete)) ≡ 1) (sensors (codes "spark") true)
    × All (λ k. readers k (sensors (codes "spark") true) ≡ 1) (keys (members complete))
sensors-readers_example = sensors-readers (codes "spark") true complete complete-IsFull

sensors-fits_example :
    All
      (λ m. All (λ c. fits c (kind m.1) ≡ true) (readers_of m.0 (sensors (codes "spark") true)))
      (members serving)
sensors-fits_example = sensors-fits (codes "spark") true serving

unique_ids-Distinct_example :
    Distinct (map (λ e. e.1.unique_id) (sensors (codes "spark") true))
    × (map (λ e. e.1.unique_id) (sensors (codes "spark") true)
        ≡ map (λ k. codes "spark" ++ (codes "_" ++ k)) (keys (sensors (codes "spark") true)))
unique_ids-Distinct_example = unique_ids-Distinct (codes "spark") true
