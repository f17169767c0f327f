-- ===== src/Publisher/Json/Encoding.antt =====
-- When `json.Marshal` accepts a state: exactly if each of its numbers is finite.
use sparkwrangler.Base.Int.{ℤ}
use sparkwrangler.Base.{
  Bool, true, not, ◌&&◌, Option, none, some, List, [], ◌∷◌, ◌≡◌, ◌↔◌, refl, ◌∙◌, arith,
  if◌then◌else◌, Bytes, All, Bool-cases, inl, inr,
}
use sparkwrangler.Float.{Float, is_special, zero_float}
use sparkwrangler.Publisher.Json.{
  flag, text, int, num, Member, opt, opt_text, members, encodable, marshal_state,
}
use sparkwrangler.Publisher.State.{State, from_vllm}
use sparkwrangler.Vllm.Client.Readings.{IsFiniteOption}
use sparkwrangler.Vllm.Reading.{Reading}

module _ {F : Type 0} ⦃fl : Float F⦄ where
  -- The numbers of a state.
  abbrev pub numbers : State F → List (Option F)
  numbers s =
      s.kv_cache_usage_pct ∷ s.preemptions ∷ s.prefix_cache_hit_rate_pct
      ∷ s.generation_tokens_per_second ∷ s.max_concurrency ∷ s.gpu_utilization_pct ∷ s.gpu_clock_mhz
      ∷ s.gpu_temperature_c ∷ s.gpu_power_w ∷ s.memory_used_pct ∷ []

  finite_option : Option F → Bool
  finite_option none = true
  finite_option (some x) = not (is_special x)

  all_finite : List (Option F) → Bool
  unfolding finite_option
  all_finite [] = true
  all_finite (o ∷ os) = finite_option o && all_finite os

  encodable-num :
      (k : Bytes) (o : Option F) (rest : List (Member F)) (os : List (Option F))
      → encodable rest ≡ all_finite os
      → encodable (opt k num o rest) ≡ all_finite (o ∷ os)
  unfolding encodable opt all_finite
  encodable-num k none rest os h = h
  encodable-num k (some x) rest os h = rw h

  encodable-int :
      (k : Bytes) (o : Option ℤ) (rest : List (Member F))
      → encodable (opt k int o rest) ≡ encodable rest
  unfolding encodable opt
  encodable-int k none rest = refl
  encodable-int k (some x) rest = refl

  encodable-flag :
      (k : Bytes) (o : Option Bool) (rest : List (Member F))
      → encodable (opt k flag o rest) ≡ encodable rest
  unfolding encodable opt
  encodable-flag k none rest = refl
  encodable-flag k (some x) rest = refl

  encodable-text :
      (k s : Bytes) (rest : List (Member F)) → encodable (opt_text k s rest) ≡ encodable rest
  unfolding encodable opt_text
  encodable-text k [] rest = refl
  encodable-text k (c ∷ s) rest = refl

  encodable-last :
      (k s : Bytes) (os : List (Option F))
      → os ≡ []
      → encodable {F = F} ((k, text s) ∷ []) ≡ all_finite os
  unfolding encodable all_finite
  encodable-last k s os e = rw e

  encodable-members : (s : State F) → encodable (members s) ≡ all_finite (numbers s)
  unfolding members
  encodable-members s =
      encodable-flag _ s.vllm_up _
      ∙ encodable-text _ s.model _
      ∙ encodable-num _ s.kv_cache_usage_pct _ _ (
          encodable-int _ s.requests_running _
          ∙ encodable-int _ s.requests_waiting _
          ∙ encodable-int _ s.waiting_for_capacity _
          ∙ encodable-num _ s.preemptions _ _ (
              encodable-num _ s.prefix_cache_hit_rate_pct _ _ (
                encodable-num _ s.generation_tokens_per_second _ _ (
                  encodable-int _ s.max_model_len _
                  ∙ encodable-int _ s.kv_cache_tokens _
                  ∙ encodable-num _ s.max_concurrency _ _ (
                      encodable-flag _ s.prefix_caching_enabled _
                      ∙ encodable-num _ s.gpu_utilization_pct _ _ (
                          encodable-num _ s.gpu_clock_mhz _ _ (
                            encodable-num _ s.gpu_temperature_c _ _ (
                              encodable-num _ s.gpu_power_w _ _ (
                                encodable-int _ s.memory_available_bytes _
                                ∙ encodable-num _ s.memory_used_pct _ _ (
                                    encodable-text _ s.mac_address _
                                    ∙ encodable-last _ s.last_seen [] refl))))))))))

  all_finite_sound : (os : List (Option F)) → all_finite os ≡ true → All IsFiniteOption os
  unfolding all_finite
  all_finite_sound [] h = tt
  all_finite_sound (none ∷ os) h = (tt, all_finite_sound os h)
  all_finite_sound (some x ∷ os) h = (ground arith, all_finite_sound os (ground arith))

  all_finite_complete : (os : List (Option F)) → All IsFiniteOption os → all_finite os ≡ true
  unfolding all_finite
  all_finite_complete [] h = refl
  all_finite_complete (none ∷ os) h = all_finite_complete os h.1
  all_finite_complete (some x ∷ os) h = rw (h.0, all_finite_complete os h.1)

  marshal_state-all_finite :
      (s : State F) → marshal_state s ≡ (if all_finite (numbers s) then some (members s) else none)
  unfolding marshal_state
  marshal_state-all_finite s = rw (encodable-members s)

  -- The encoder writes all the members of a state, exactly if each number of the state is absent or
  -- finite. Otherwise it gives an error and the whole document is lost.
  pub marshal_state_iff :
      (s : State F)
      → ((marshal_state s ≡ some (members s)) ↔ All IsFiniteOption (numbers s))
        × ((marshal_state s ≡ none) ↔ (¬ All IsFiniteOption (numbers s)))
  marshal_state_iff s = elim (Bool-cases (all_finite (numbers s))) [
    | inl good ↦
        let fine = all_finite_sound (numbers s) good in
        let e : marshal_state s ≡ some (members s) = marshal_state-all_finite s ∙ rw good in
        ((λ _. fine, λ _. e), (λ h. cc, λ h. absurd (h fine)))
    | inr bad ↦
        let e : marshal_state s ≡ none = marshal_state-all_finite s ∙ rw bad in
        (
          (λ h. cc, λ h. cc (all_finite_complete (numbers s) h)),
          (λ _ h. cc (all_finite_complete (numbers s) h), λ _. e),
        )
  ]

  not_finite : (o : Option F) (x : F) → o ≡ some x → fl.is_inf x ≡ true → ¬ IsFiniteOption o
  not_finite none x e inf h = cc
  not_finite (some y) x e inf h = ground arith

  -- A server that is up and reports an infinite concurrency, which `ParseFloat` reads and no test
  -- drops, makes the whole document fail to encode, whatever the other readings are.
  pub marshal_state-max_concurrency :
      (now : Bytes) (r : Reading F) (prev : Option (Reading F)) (elapsed : ℤ) (s : State F)
      → r.up ≡ true
      → fl.is_inf r.max_concurrency ≡ true
      → fl.lt zero_float r.max_concurrency ≡ true
      → s.max_concurrency ≡ (from_vllm now r prev elapsed).max_concurrency
      → marshal_state s ≡ none
  unfolding from_vllm
  marshal_state-max_concurrency now r prev elapsed s up inf pos e =
      (marshal_state_iff s).1.1
        (λ h. not_finite s.max_concurrency r.max_concurrency (ground arith) inf h.1.1.1.1.0)
