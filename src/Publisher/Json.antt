-- ===== src/Publisher/Json.antt =====
-- The state as `encoding/json` writes it: the members of the object, in the order of the fields of
-- `State`, without those that `omitempty` leaves out. The print of a member's value is the encoder's.
pub mod Encoding
pub mod Kinds
pub mod Slots
pub mod RoundTrip
pub mod Members
use sparkwrangler.Base.Int.{ℤ}
use sparkwrangler.Base.{
  Bool, true, false, not, ◌&&◌, Option, none, some, List, [], ◌∷◌, ◌++◌, if◌then◌else◌, Bytes,
  codes, Dict, map, All,
}
use sparkwrangler.Float.{Float, is_special}
use sparkwrangler.Publisher.State.{State}

pub data Json (F : Type 0) : Type 0 where
  flag : Bool → Json F
  text : Bytes → Json F
  int : ℤ → Json F
  num : F → Json F

abbrev pub Member : Type 0 → Type 0
Member F = Bytes × Json F

module _ {F : Type 0} where
  -- `omitempty` on a pointer.
  opt : {A : Type 0} → Bytes → (A → Json F) → Option A → List (Member F) → List (Member F)
  opt k f none rest = rest
  opt k f (some a) rest = (k, f a) ∷ rest

  -- `omitempty` on a text.
  opt_text : Bytes → Bytes → List (Member F) → List (Member F)
  opt_text k [] rest = rest
  opt_text k (c ∷ s) rest = (k, text (c ∷ s)) ∷ rest

  opt-All :
      {A : Type 0} (P : Member F → Type 0) (k : Bytes) (f : A → Json F) (o : Option A)
      (rest : List (Member F))
      → ((a : A) → P (k, f a))
      → All P rest
      → All P (opt k f o rest)
  unfolding opt
  opt-All P k f none rest h hs = hs
  opt-All P k f (some a) rest h hs = (h a, hs)

  opt_text-All :
      (P : Member F → Type 0) (k s : Bytes) (rest : List (Member F))
      → P (k, text s)
      → All P rest
      → All P (opt_text k s rest)
  unfolding opt_text
  opt_text-All P k [] rest h hs = hs
  opt_text-All P k (c ∷ s) rest h hs = (h, hs)

  unfoldable pub members : State F → List (Member F)
  unfolding opt opt_text
  members s = opt (codes "vllm_up") flag s.vllm_up (
      opt_text (codes "model") s.model (
        opt (codes "kv_cache_usage_pct") num s.kv_cache_usage_pct (
          opt (codes "requests_running") int s.requests_running (
            opt (codes "requests_waiting") int s.requests_waiting (
              opt (codes "waiting_for_capacity") int s.waiting_for_capacity (
                opt (codes "preemptions") num s.preemptions (
                  opt (codes "prefix_cache_hit_rate_pct") num s.prefix_cache_hit_rate_pct (
                    opt (codes "generation_tokens_per_second") num s.generation_tokens_per_second (
                      opt (codes "max_model_len") int s.max_model_len (
                        opt (codes "kv_cache_tokens") int s.kv_cache_tokens (
                          opt (codes "max_concurrency") num s.max_concurrency (
                            opt (codes "prefix_caching_enabled") flag s.prefix_caching_enabled (
                              opt (codes "gpu_utilization_pct") num s.gpu_utilization_pct (
                                opt (codes "gpu_clock_mhz") num s.gpu_clock_mhz (
                                  opt (codes "gpu_temperature_c") num s.gpu_temperature_c (
                                    opt (codes "gpu_power_w") num s.gpu_power_w (
                                      opt (codes "memory_available_bytes") int
                                        s.memory_available_bytes
                                        (opt (codes "memory_used_pct") num s.memory_used_pct (
                                          opt_text (codes "mac_address") s.mac_address (
                                            (codes "last_seen", text s.last_seen)
                                            ∷ []))))))))))))))))))))

module _ {F : Type 0} ⦃fl : Float F⦄ where
  -- The encoder refuses NaN and the infinities.
  unfoldable pub encodable : List (Member F) → Bool
  encodable [] = true
  encodable ((k, flag b) ∷ ms) = encodable ms
  encodable ((k, text s) ∷ ms) = encodable ms
  encodable ((k, int n) ∷ ms) = encodable ms
  encodable ((k, num x) ∷ ms) = not (is_special x) && encodable ms

  -- `json.Marshal(s)`
  unfoldable pub marshal_state : State F → Option (List (Member F))
  unfolding members encodable
  marshal_state s = if encodable (members s) then some (members s) else none

-- The keys of a document that says nothing of an engine, and those of any document.
abbrev pub host_keys : List Bytes
host_keys =
    codes "gpu_utilization_pct"
    ∷ codes "gpu_clock_mhz"
    ∷ codes "gpu_temperature_c"
    ∷ codes "gpu_power_w"
    ∷ codes "memory_available_bytes"
    ∷ codes "memory_used_pct"
    ∷ codes "mac_address"
    ∷ codes "last_seen"
    ∷ []

abbrev pub engine_keys : List Bytes
engine_keys =
    codes "vllm_up"
    ∷ codes "model"
    ∷ codes "kv_cache_usage_pct"
    ∷ codes "requests_running"
    ∷ codes "requests_waiting"
    ∷ codes "waiting_for_capacity"
    ∷ codes "preemptions"
    ∷ codes "prefix_cache_hit_rate_pct"
    ∷ codes "generation_tokens_per_second"
    ∷ codes "max_model_len"
    ∷ codes "kv_cache_tokens"
    ∷ codes "max_concurrency"
    ∷ codes "prefix_caching_enabled"
    ∷ []

abbrev pub document_keys : Bool → List Bytes
document_keys with_engine = if with_engine then engine_keys ++ host_keys else host_keys
