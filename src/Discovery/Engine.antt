-- ===== src/Discovery/Engine.antt =====
-- The components of a node that runs the engine: `vllmSensors` of internal/hadiscovery/sensors.go.
use sparkwrangler.Base.Int.{pos}
use sparkwrangler.Base.{some, [], ◌∷◌, Bytes, codes, Dict}
use sparkwrangler.Discovery.Device.{Component}
use sparkwrangler.Discovery.Templates.{optional, optional_binary, no_component}

vllm_running : (Bytes → Bytes) → Component
vllm_running uid = record no_component {
  platform = codes "binary_sensor";
  name = codes "vLLM";
  unique_id = uid (codes "vllm_running");
  device_class = codes "running";
  value_template = optional_binary (codes "vllm_up");
  payload_on = codes "ON";
  payload_off = codes "OFF";
  icon = codes "mdi:server";
}

served_model : (Bytes → Bytes) → Component
served_model uid = record no_component {
  platform = codes "sensor";
  name = codes "Served model";
  unique_id = uid (codes "served_model");
  value_template = optional (codes "model");
  icon = codes "mdi:brain";
}

kv_cache_usage : (Bytes → Bytes) → Component
kv_cache_usage uid = record no_component {
  platform = codes "sensor";
  name = codes "KV cache usage";
  unique_id = uid (codes "kv_cache_usage");
  value_template = optional (codes "kv_cache_usage_pct");
  unit_of_measurement = codes "%";
  state_class = codes "measurement";
  display_precision = some (pos 1);
  icon = codes "mdi:memory";
}

requests_running : (Bytes → Bytes) → Component
requests_running uid = record no_component {
  platform = codes "sensor";
  name = codes "Requests running";
  unique_id = uid (codes "requests_running");
  value_template = optional (codes "requests_running");
  unit_of_measurement = codes "requests";
  state_class = codes "measurement";
  icon = codes "mdi:play-circle-outline";
}

requests_waiting : (Bytes → Bytes) → Component
requests_waiting uid = record no_component {
  platform = codes "sensor";
  name = codes "Requests waiting";
  unique_id = uid (codes "requests_waiting");
  value_template = optional (codes "requests_waiting");
  unit_of_measurement = codes "requests";
  state_class = codes "measurement";
  icon = codes "mdi:timer-sand";
}

waiting_for_capacity : (Bytes → Bytes) → Component
waiting_for_capacity uid = record no_component {
  platform = codes "sensor";
  name = codes "Waiting for KV capacity";
  unique_id = uid (codes "waiting_for_capacity");
  value_template = optional (codes "waiting_for_capacity");
  unit_of_measurement = codes "requests";
  state_class = codes "measurement";
  entity_category = codes "diagnostic";
  icon = codes "mdi:traffic-light-outline";
}

preemptions : (Bytes → Bytes) → Component
preemptions uid = record no_component {
  platform = codes "sensor";
  name = codes "Preemptions";
  unique_id = uid (codes "preemptions");
  value_template = optional (codes "preemptions");
  unit_of_measurement = codes "events";
  state_class = codes "total_increasing";
  entity_category = codes "diagnostic";
  icon = codes "mdi:alert-octagon-outline";
}

prefix_cache_hit_rate : (Bytes → Bytes) → Component
prefix_cache_hit_rate uid = record no_component {
  platform = codes "sensor";
  name = codes "Prefix cache hit rate";
  unique_id = uid (codes "prefix_cache_hit_rate");
  value_template = optional (codes "prefix_cache_hit_rate_pct");
  unit_of_measurement = codes "%";
  state_class = codes "measurement";
  display_precision = some (pos 1);
  icon = codes "mdi:cached";
}

generation_rate : (Bytes → Bytes) → Component
generation_rate uid = record no_component {
  platform = codes "sensor";
  name = codes "Generation rate";
  unique_id = uid (codes "generation_rate");
  value_template = optional (codes "generation_tokens_per_second");
  unit_of_measurement = codes "tok/s";
  state_class = codes "measurement";
  display_precision = some (pos 1);
  icon = codes "mdi:speedometer";
}

max_model_len : (Bytes → Bytes) → Component
max_model_len uid = record no_component {
  platform = codes "sensor";
  name = codes "Max model length";
  unique_id = uid (codes "max_model_len");
  value_template = optional (codes "max_model_len");
  unit_of_measurement = codes "tokens";
  entity_category = codes "diagnostic";
  icon = codes "mdi:arrow-expand-horizontal";
}

kv_cache_tokens : (Bytes → Bytes) → Component
kv_cache_tokens uid = record no_component {
  platform = codes "sensor";
  name = codes "KV cache size";
  unique_id = uid (codes "kv_cache_tokens");
  value_template = optional (codes "kv_cache_tokens");
  unit_of_measurement = codes "tokens";
  entity_category = codes "diagnostic";
  icon = codes "mdi:database-outline";
}

max_concurrency : (Bytes → Bytes) → Component
max_concurrency uid = record no_component {
  platform = codes "sensor";
  name = codes "Max concurrency";
  unique_id = uid (codes "max_concurrency");
  value_template = optional (codes "max_concurrency");
  unit_of_measurement = codes "x";
  entity_category = codes "diagnostic";
  display_precision = some (pos 2);
  icon = codes "mdi:arrow-split-vertical";
}

prefix_caching : (Bytes → Bytes) → Component
prefix_caching uid = record no_component {
  platform = codes "binary_sensor";
  name = codes "Prefix caching";
  unique_id = uid (codes "prefix_caching");
  value_template = optional_binary (codes "prefix_caching_enabled");
  payload_on = codes "ON";
  payload_off = codes "OFF";
  entity_category = codes "diagnostic";
  icon = codes "mdi:cached";
}

unfoldable pub vllm_sensors : (Bytes → Bytes) → Dict Component
unfolding vllm_running served_model kv_cache_usage requests_running requests_waiting
    waiting_for_capacity preemptions prefix_cache_hit_rate generation_rate max_model_len
    kv_cache_tokens max_concurrency prefix_caching
vllm_sensors uid =
    (codes "vllm_running", vllm_running uid)
    ∷ (codes "served_model", served_model uid)
    ∷ (codes "kv_cache_usage", kv_cache_usage uid)
    ∷ (codes "requests_running", requests_running uid)
    ∷ (codes "requests_waiting", requests_waiting uid)
    ∷ (codes "waiting_for_capacity", waiting_for_capacity uid)
    ∷ (codes "preemptions", preemptions uid)
    ∷ (codes "prefix_cache_hit_rate", prefix_cache_hit_rate uid)
    ∷ (codes "generation_rate", generation_rate uid)
    ∷ (codes "max_model_len", max_model_len uid)
    ∷ (codes "kv_cache_tokens", kv_cache_tokens uid)
    ∷ (codes "max_concurrency", max_concurrency uid)
    ∷ (codes "prefix_caching", prefix_caching uid)
    ∷ []
