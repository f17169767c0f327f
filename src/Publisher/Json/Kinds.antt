-- ===== src/Publisher/Json/Kinds.antt =====
-- Of which kind the value of each member of a state document is.
use sparkwrangler.Base.{some, [], ◌∷◌, ◌≡◌, refl, codes, Dict, lookup, equal, All}
use sparkwrangler.Publisher.Json.{
  Json, flag, text, int, num, Member, opt-All, opt_text-All, members,
}
use sparkwrangler.Publisher.State.{State}

pub data Kind : Type 0 where
  truth : Kind
  string : Kind
  whole : Kind
  real : Kind

abbrev pub kind : {F : Type 0} → Json F → Kind
kind (flag b) = truth
kind (text s) = string
kind (int n) = whole
kind (num x) = real

abbrev pub document_kinds : Dict Kind
document_kinds =
    (codes "vllm_up", truth)
    ∷ (codes "model", string)
    ∷ (codes "kv_cache_usage_pct", real)
    ∷ (codes "requests_running", whole)
    ∷ (codes "requests_waiting", whole)
    ∷ (codes "waiting_for_capacity", whole)
    ∷ (codes "preemptions", real)
    ∷ (codes "prefix_cache_hit_rate_pct", real)
    ∷ (codes "generation_tokens_per_second", real)
    ∷ (codes "max_model_len", whole)
    ∷ (codes "kv_cache_tokens", whole)
    ∷ (codes "max_concurrency", real)
    ∷ (codes "prefix_caching_enabled", truth)
    ∷ (codes "gpu_utilization_pct", real)
    ∷ (codes "gpu_clock_mhz", real)
    ∷ (codes "gpu_temperature_c", real)
    ∷ (codes "gpu_power_w", real)
    ∷ (codes "memory_available_bytes", whole)
    ∷ (codes "memory_used_pct", real)
    ∷ (codes "mac_address", string)
    ∷ (codes "last_seen", string)
    ∷ []

module _ {F : Type 0} where
  abbrev IsOfKind : Member F → Type 0
  IsOfKind m = lookup m.0 document_kinds ≡ some (kind m.1)

  -- Whatever a state holds, each member of its document is of the kind that its key stands for.
  pub lookup-members :
      (s : State F) → All (λ m. lookup m.0 document_kinds ≡ some (kind m.1)) (members s)
  unfolding members lookup equal
  lookup-members s =
      let P = IsOfKind in
      opt-All P _ _ s.vllm_up _ (λ a. refl)
        (opt_text-All P _ s.model _ refl (
          opt-All P _ _ s.kv_cache_usage_pct _ (λ a. refl)
            (opt-All P _ _ s.requests_running _ (λ a. refl)
              (opt-All P _ _ s.requests_waiting _ (λ a. refl)
                (opt-All P _ _ s.waiting_for_capacity _ (λ a. refl)
                  (opt-All P _ _ s.preemptions _ (λ a. refl)
                    (opt-All P _ _ s.prefix_cache_hit_rate_pct _ (λ a. refl)
                      (opt-All P _ _ s.generation_tokens_per_second _ (λ a. refl)
                        (opt-All P _ _ s.max_model_len _ (λ a. refl)
                          (opt-All P _ _ s.kv_cache_tokens _ (λ a. refl)
                            (opt-All P _ _ s.max_concurrency _ (λ a. refl)
                              (opt-All P _ _ s.prefix_caching_enabled _ (λ a. refl)
                                (opt-All P _ _ s.gpu_utilization_pct _ (λ a. refl)
                                  (opt-All P _ _ s.gpu_clock_mhz _ (λ a. refl)
                                    (opt-All P _ _ s.gpu_temperature_c _ (λ a. refl)
                                      (opt-All P _ _ s.gpu_power_w _ (λ a. refl)
                                        (opt-All P _ _ s.memory_available_bytes _ (λ a. refl)
                                          (opt-All P _ _ s.memory_used_pct _ (λ a. refl)
                                            (opt_text-All P _ s.mac_address _ refl
                                              (refl, tt))))))))))))))))))))
