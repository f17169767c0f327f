-- ===== src/Publisher/Json/RoundTrip.antt =====
-- A state is read back from its document.
use sparkwrangler.Base.Int.{ℤ}
use sparkwrangler.Base.{
  Bool, Option, none, some, List, [], ◌∷◌, ◌≡◌, refl, ◌∙◌, ap, Bytes, codes, lookup, equal,
}
use sparkwrangler.Publisher.Json.{Json, flag, text, int, num, Member, members}
use sparkwrangler.Publisher.State.{State}
use sparkwrangler.Vllm.Reading.{map_option}
use sparkwrangler.Publisher.Json.Slots.{flat, nonempty, slots, lookup-members}

module _ {F : Type 0} where
  as_flag : Option (Json F) → Option Bool
  as_flag (some (flag b)) = some b
  as_flag _ = none

  as_int : Option (Json F) → Option ℤ
  as_int (some (int n)) = some n
  as_int _ = none

  as_num : Option (Json F) → Option F
  as_num (some (num x)) = some x
  as_num _ = none

  as_text : Option (Json F) → Bytes
  as_text (some (text t)) = t
  as_text _ = []

  -- The state that a reader makes of a document: a member that is missing is absent or empty.
  unfoldable pub read_state : List (Member F) → State F
  unfolding as_flag as_int as_num as_text
  read_state ms = record {
    vllm_up = as_flag (lookup (codes "vllm_up") ms);
    model = as_text (lookup (codes "model") ms);
    kv_cache_usage_pct = as_num (lookup (codes "kv_cache_usage_pct") ms);
    requests_running = as_int (lookup (codes "requests_running") ms);
    requests_waiting = as_int (lookup (codes "requests_waiting") ms);
    waiting_for_capacity = as_int (lookup (codes "waiting_for_capacity") ms);
    preemptions = as_num (lookup (codes "preemptions") ms);
    prefix_cache_hit_rate_pct = as_num (lookup (codes "prefix_cache_hit_rate_pct") ms);
    generation_tokens_per_second = as_num (lookup (codes "generation_tokens_per_second") ms);
    max_model_len = as_int (lookup (codes "max_model_len") ms);
    kv_cache_tokens = as_int (lookup (codes "kv_cache_tokens") ms);
    max_concurrency = as_num (lookup (codes "max_concurrency") ms);
    prefix_caching_enabled = as_flag (lookup (codes "prefix_caching_enabled") ms);
    gpu_utilization_pct = as_num (lookup (codes "gpu_utilization_pct") ms);
    gpu_clock_mhz = as_num (lookup (codes "gpu_clock_mhz") ms);
    gpu_temperature_c = as_num (lookup (codes "gpu_temperature_c") ms);
    gpu_power_w = as_num (lookup (codes "gpu_power_w") ms);
    memory_available_bytes = as_int (lookup (codes "memory_available_bytes") ms);
    memory_used_pct = as_num (lookup (codes "memory_used_pct") ms);
    mac_address = as_text (lookup (codes "mac_address") ms);
    last_seen = as_text (lookup (codes "last_seen") ms);
  }

  flag_read :
      (k : Bytes) (s : State F) (o : Option Bool)
      → flat (lookup k (slots s)) ≡ map_option flag o
      → as_flag (lookup k (members s)) ≡ o
  unfolding as_flag
  flag_read k s none h = ap as_flag (lookup-members k s ∙ h)
  flag_read k s (some x) h = ap as_flag (lookup-members k s ∙ h)

  int_read :
      (k : Bytes) (s : State F) (o : Option ℤ)
      → flat (lookup k (slots s)) ≡ map_option int o
      → as_int (lookup k (members s)) ≡ o
  unfolding as_int
  int_read k s none h = ap as_int (lookup-members k s ∙ h)
  int_read k s (some x) h = ap as_int (lookup-members k s ∙ h)

  num_read :
      (k : Bytes) (s : State F) (o : Option F)
      → flat (lookup k (slots s)) ≡ map_option num o
      → as_num (lookup k (members s)) ≡ o
  unfolding as_num
  num_read k s none h = ap as_num (lookup-members k s ∙ h)
  num_read k s (some x) h = ap as_num (lookup-members k s ∙ h)

  text_read :
      (k : Bytes) (s : State F) (t : Bytes)
      → flat (lookup k (slots s)) ≡ nonempty t
      → as_text (lookup k (members s)) ≡ t
  unfolding as_text nonempty
  text_read k s [] h = ap as_text (lookup-members k s ∙ h)
  text_read k s (c ∷ t) h = ap as_text (lookup-members k s ∙ h)

  last_read : (s : State F) → as_text (lookup (codes "last_seen") (members s)) ≡ s.last_seen
  unfolding slots lookup equal flat as_text
  last_read s = ap as_text (lookup-members (codes "last_seen") s)

  -- A document says all of its state: no two fields share a key, and what `omitempty` leaves out is what
  -- a reader takes for a missing member.
  pub read_state-members : (s : State F) → read_state (members s) ≡ s
  unfolding read_state slots lookup equal flat
  read_state-members s = rw (
    flag_read (codes "vllm_up") s s.vllm_up refl,
    text_read (codes "model") s s.model refl,
    num_read (codes "kv_cache_usage_pct") s s.kv_cache_usage_pct refl,
    int_read (codes "requests_running") s s.requests_running refl,
    int_read (codes "requests_waiting") s s.requests_waiting refl,
    int_read (codes "waiting_for_capacity") s s.waiting_for_capacity refl,
    num_read (codes "preemptions") s s.preemptions refl,
    num_read (codes "prefix_cache_hit_rate_pct") s s.prefix_cache_hit_rate_pct refl,
    num_read (codes "generation_tokens_per_second") s s.generation_tokens_per_second refl,
    int_read (codes "max_model_len") s s.max_model_len refl,
    int_read (codes "kv_cache_tokens") s s.kv_cache_tokens refl,
    num_read (codes "max_concurrency") s s.max_concurrency refl,
    flag_read (codes "prefix_caching_enabled") s s.prefix_caching_enabled refl,
    num_read (codes "gpu_utilization_pct") s s.gpu_utilization_pct refl,
    num_read (codes "gpu_clock_mhz") s s.gpu_clock_mhz refl,
    num_read (codes "gpu_temperature_c") s s.gpu_temperature_c refl,
    num_read (codes "gpu_power_w") s s.gpu_power_w refl,
    int_read (codes "memory_available_bytes") s s.memory_available_bytes refl,
    num_read (codes "memory_used_pct") s s.memory_used_pct refl,
    text_read (codes "mac_address") s s.mac_address refl,
    last_read s,
  )
