-- ===== src/Publisher/Json/Members.antt =====
-- Which members a state document has, and when it can be encoded.
use sparkwrangler.Base.{
  Bool, true, false, Option, none, some, List, [], ◌∷◌, ◌++◌, ◌≡◌, ◌≢◌, refl, ◌∙◌, ap, Bytes, codes,
  keys, one_of, All, is_some,
}
use sparkwrangler.Publisher.Json.{
  Json, flag, text, int, num, engine_keys, Member, opt, opt_text, opt-All, opt_text-All, members,
  document_keys,
}
use sparkwrangler.Publisher.State.{State}

module _ {F : Type 0} where
  -- A state that says nothing of an engine.
  pub record IsHostOnly (s : State F) : Type 0 where
    pub up : s.vllm_up ≡ none
    pub model : s.model ≡ []
    pub usage : s.kv_cache_usage_pct ≡ none
    pub running : s.requests_running ≡ none
    pub waiting : s.requests_waiting ≡ none
    pub capacity : s.waiting_for_capacity ≡ none
    pub preempted : s.preemptions ≡ none
    pub hits : s.prefix_cache_hit_rate_pct ≡ none
    pub generated : s.generation_tokens_per_second ≡ none
    pub len : s.max_model_len ≡ none
    pub tokens : s.kv_cache_tokens ≡ none
    pub concurrency : s.max_concurrency ≡ none
    pub caching : s.prefix_caching_enabled ≡ none

  abbrev IsDocumentMember : Bool → Member F → Type 0
  IsDocumentMember with_engine m = one_of m.0 (document_keys with_engine) ≡ true

  -- Every member of a state document has a key of the list that the discovery catalog is checked
  -- against.
  pub members-document_keys :
      (s : State F) → All (λ m. one_of m.0 (document_keys true) ≡ true) (members s)
  unfolding members one_of
  members-document_keys s =
      let P = IsDocumentMember true in
      opt-All P _ _ s.vllm_up _ (λ a. refl)
        (opt_text-All P _ s.model _ refl (
          opt-All P _ _ s.kv_cache_usage_pct _ (λ a. refl)
            (opt-All P _ _ s.requests_running _ (λ a. refl)
              (opt-All P _ _ s.requests_waiting _ (λ a. refl)
                (opt-All P _ _ s.waiting_for_capacity _ (λ a. refl)
                  (opt-All P _ _ s.preemptions _ (λ a. refl)
                    (opt-All P _ _ s.prefix_cache_hit_rate_pct _ (λ a. refl)
                      (opt-All P _ _ s.generation_tokens_per_second _ (λ a. refl)
                        (opt-All P _ _ s.max_model_len _ (λ a. refl)
                          (opt-All P _ _ s.kv_cache_tokens _ (λ a. refl)
                            (opt-All P _ _ s.max_concurrency _ (λ a. refl)
                              (opt-All P _ _ s.prefix_caching_enabled _ (λ a. refl)
                                (opt-All P _ _ s.gpu_utilization_pct _ (λ a. refl)
                                  (opt-All P _ _ s.gpu_clock_mhz _ (λ a. refl)
                                    (opt-All P _ _ s.gpu_temperature_c _ (λ a. refl)
                                      (opt-All P _ _ s.gpu_power_w _ (λ a. refl)
                                        (opt-All P _ _ s.memory_available_bytes _ (λ a. refl)
                                          (opt-All P _ _ s.memory_used_pct _ (λ a. refl)
                                            (opt_text-All P _ s.mac_address _ refl
                                              (refl, tt))))))))))))))))))))

  -- The members of the accelerator, the memory and the network.
  host_members : State F → List (Member F)
  unfolding opt opt_text
  host_members s = opt (codes "gpu_utilization_pct") num s.gpu_utilization_pct (
      opt (codes "gpu_clock_mhz") num s.gpu_clock_mhz (
        opt (codes "gpu_temperature_c") num s.gpu_temperature_c (
          opt (codes "gpu_power_w") num s.gpu_power_w (
            opt (codes "memory_available_bytes") int s.memory_available_bytes (
              opt (codes "memory_used_pct") num s.memory_used_pct (
                opt_text (codes "mac_address") s.mac_address
                  ((codes "last_seen", text s.last_seen) ∷ [])))))))

  members-IsHostOnly : (s : State F) → IsHostOnly s → members s ≡ host_members s
  unfolding members host_members
  members-IsHostOnly s h = rw (
    h.up, h.model, h.usage, h.running, h.waiting, h.capacity, h.preempted, h.hits, h.generated,
    h.len, h.tokens, h.concurrency, h.caching,
  )

  -- If a state says nothing of an engine, its members have keys that the catalog of a worker reads.
  pub members-host_keys :
      (s : State F) → IsHostOnly s → All (λ m. one_of m.0 (document_keys false) ≡ true) (members s)
  unfolding one_of
  members-host_keys s h =
      let P = IsDocumentMember false in
      rw (members-IsHostOnly s h) (
        unfold host_members in
        opt-All P _ _ s.gpu_utilization_pct _ (λ a. refl)
          (opt-All P _ _ s.gpu_clock_mhz _ (λ a. refl)
            (opt-All P _ _ s.gpu_temperature_c _ (λ a. refl)
              (opt-All P _ _ s.gpu_power_w _ (λ a. refl)
                (opt-All P _ _ s.memory_available_bytes _ (λ a. refl)
                  (opt-All P _ _ s.memory_used_pct _ (λ a. refl)
                    (opt_text-All P _ s.mac_address _ refl (refl, tt))))))))

  -- A state that says all that there is to say of an engine, and one that does of the host.
  pub record IsEngineFull (s : State F) : Type 0 where
    pub up : is_some s.vllm_up ≡ true
    pub model : s.model ≢ []
    pub usage : is_some s.kv_cache_usage_pct ≡ true
    pub running : is_some s.requests_running ≡ true
    pub waiting : is_some s.requests_waiting ≡ true
    pub capacity : is_some s.waiting_for_capacity ≡ true
    pub preempted : is_some s.preemptions ≡ true
    pub hits : is_some s.prefix_cache_hit_rate_pct ≡ true
    pub generated : is_some s.generation_tokens_per_second ≡ true
    pub len : is_some s.max_model_len ≡ true
    pub tokens : is_some s.kv_cache_tokens ≡ true
    pub concurrency : is_some s.max_concurrency ≡ true
    pub caching : is_some s.prefix_caching_enabled ≡ true

  pub record IsHostFull (s : State F) : Type 0 where
    pub utilization : is_some s.gpu_utilization_pct ≡ true
    pub clock : is_some s.gpu_clock_mhz ≡ true
    pub temperature : is_some s.gpu_temperature_c ≡ true
    pub power : is_some s.gpu_power_w ≡ true
    pub available : is_some s.memory_available_bytes ≡ true
    pub used : is_some s.memory_used_pct ≡ true
    pub mac : s.mac_address ≢ []

  keys-opt :
      {A : Type 0} (k : Bytes) (f : A → Json F) (o : Option A) (rest : List (Member F))
      {ks : List Bytes}
      → is_some o ≡ true
      → keys rest ≡ ks
      → keys (opt k f o rest) ≡ k ∷ ks
  unfolding opt
  keys-opt k f none rest h e = cc
  keys-opt k f (some a) rest h e = ap (◌∷◌ k) e

  keys-opt_text :
      (k s : Bytes) (rest : List (Member F)) {ks : List Bytes}
      → s ≢ []
      → keys rest ≡ ks
      → keys (opt_text k s rest) ≡ k ∷ ks
  unfolding opt_text
  keys-opt_text k [] rest h e = absurd (h refl)
  keys-opt_text k (c ∷ s) rest h e = ap (◌∷◌ k) e

  keys-host_members : (s : State F) → IsHostFull s → keys (host_members s) ≡ document_keys false
  unfolding host_members
  keys-host_members s h = keys-opt _ num s.gpu_utilization_pct _ h.utilization (
      keys-opt _ num s.gpu_clock_mhz _ h.clock (
        keys-opt _ num s.gpu_temperature_c _ h.temperature (
          keys-opt _ num s.gpu_power_w _ h.power (
            keys-opt _ int s.memory_available_bytes _ h.available (
              keys-opt _ num s.memory_used_pct _ h.used
                (keys-opt_text _ s.mac_address _ h.mac refl))))))

  -- The members that a full state has, of a worker and of a node with an engine.
  abbrev pub IsFull : Bool → State F → Type 0
  IsFull true s = IsEngineFull s × IsHostFull s
  IsFull false s = IsHostOnly s × IsHostFull s

  keys-engine_members :
      (s : State F) → IsEngineFull s → keys (members s) ≡ engine_keys ++ keys (host_members s)
  unfolding members host_members
  keys-engine_members s h = keys-opt _ flag s.vllm_up _ h.up (
      keys-opt_text _ s.model _ h.model (
        keys-opt _ num s.kv_cache_usage_pct _ h.usage (
          keys-opt _ int s.requests_running _ h.running (
            keys-opt _ int s.requests_waiting _ h.waiting (
              keys-opt _ int s.waiting_for_capacity _ h.capacity (
                keys-opt _ num s.preemptions _ h.preempted (
                  keys-opt _ num s.prefix_cache_hit_rate_pct _ h.hits (
                    keys-opt _ num s.generation_tokens_per_second _ h.generated (
                      keys-opt _ int s.max_model_len _ h.len (
                        keys-opt _ int s.kv_cache_tokens _ h.tokens (
                          keys-opt _ num s.max_concurrency _ h.concurrency
                            (keys-opt _ flag s.prefix_caching_enabled _ h.caching refl))))))))))))

  pub keys-members :
      (with_engine : Bool) (s : State F)
      → IsFull with_engine s
      → keys (members s) ≡ document_keys with_engine
  keys-members true s h =
      keys-engine_members s h.0 ∙ ap (◌++◌ engine_keys) (keys-host_members s h.1)
  keys-members false s h = ap keys (members-IsHostOnly s h.0) ∙ keys-host_members s h.1
