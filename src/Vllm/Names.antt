-- ===== src/Vllm/Names.antt =====
-- The metric names of internal/vllm/names.go.
use sparkwrangler.Base.{Bytes, codes}

abbrev pub metric_preemptions : Bytes
metric_preemptions = codes "vllm:num_preemptions_total"

abbrev pub metric_kv_cache_usage : Bytes
metric_kv_cache_usage = codes "vllm:kv_cache_usage_perc"

abbrev pub metric_requests_running : Bytes
metric_requests_running = codes "vllm:num_requests_running"

abbrev pub metric_requests_waiting : Bytes
metric_requests_waiting = codes "vllm:num_requests_waiting"

abbrev pub metric_waiting_by_reason : Bytes
metric_waiting_by_reason = codes "vllm:num_requests_waiting_by_reason"

abbrev pub metric_generation_tokens : Bytes
metric_generation_tokens = codes "vllm:generation_tokens_total"

abbrev pub metric_prefix_queries : Bytes
metric_prefix_queries = codes "vllm:prefix_cache_queries_total"

abbrev pub metric_prefix_hits : Bytes
metric_prefix_hits = codes "vllm:prefix_cache_hits_total"

abbrev pub metric_cache_config : Bytes
metric_cache_config = codes "vllm:cache_config_info"
