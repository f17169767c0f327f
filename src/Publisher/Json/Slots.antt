-- ===== src/Publisher/Json/Slots.antt =====
-- A document by its keys: each has a member or none.
use sparkwrangler.Base.{
  arith, true, false, Option, none, some, List, [], ◌∷◌, ◌≡◌, refl, sym, ◌∙◌, ap, Bytes, codes,
  Dict, keys, lookup, equal, distinct, one_of, equal_iff, Bool-cases, inl, inr,
}
use sparkwrangler.Publisher.Json.{Json, flag, text, int, num, Member, opt, opt_text, members}
use sparkwrangler.Publisher.State.{State}
use sparkwrangler.Vllm.Reading.{map_option}

-- The keys of a document, each with the value that its member has, if it has one.
abbrev pub Slots : Type 0 → Type 0
Slots F = Dict (Option (Json F))

module _ {F : Type 0} where
  prepend : Bytes → Option (Json F) → List (Member F) → List (Member F)
  prepend k none rest = rest
  prepend k (some v) rest = (k, v) ∷ rest

  present : Slots F → List (Member F)
  unfolding prepend
  present [] = []
  present ((k, o) ∷ slots) = prepend k o (present slots)

  unfoldable pub flat : Option (Option (Json F)) → Option (Json F)
  flat none = none
  flat (some o) = o

  unfoldable pub nonempty : Bytes → Option (Json F)
  nonempty [] = none
  nonempty (c ∷ s) = some (text (c ∷ s))

  unfoldable pub slots : State F → Slots F
  unfolding nonempty
  slots s =
      (codes "vllm_up", map_option flag s.vllm_up)
      ∷ (codes "model", nonempty s.model)
      ∷ (codes "kv_cache_usage_pct", map_option num s.kv_cache_usage_pct)
      ∷ (codes "requests_running", map_option int s.requests_running)
      ∷ (codes "requests_waiting", map_option int s.requests_waiting)
      ∷ (codes "waiting_for_capacity", map_option int s.waiting_for_capacity)
      ∷ (codes "preemptions", map_option num s.preemptions)
      ∷ (codes "prefix_cache_hit_rate_pct", map_option num s.prefix_cache_hit_rate_pct)
      ∷ (codes "generation_tokens_per_second", map_option num s.generation_tokens_per_second)
      ∷ (codes "max_model_len", map_option int s.max_model_len)
      ∷ (codes "kv_cache_tokens", map_option int s.kv_cache_tokens)
      ∷ (codes "max_concurrency", map_option num s.max_concurrency)
      ∷ (codes "prefix_caching_enabled", map_option flag s.prefix_caching_enabled)
      ∷ (codes "gpu_utilization_pct", map_option num s.gpu_utilization_pct)
      ∷ (codes "gpu_clock_mhz", map_option num s.gpu_clock_mhz)
      ∷ (codes "gpu_temperature_c", map_option num s.gpu_temperature_c)
      ∷ (codes "gpu_power_w", map_option num s.gpu_power_w)
      ∷ (codes "memory_available_bytes", map_option int s.memory_available_bytes)
      ∷ (codes "memory_used_pct", map_option num s.memory_used_pct)
      ∷ (codes "mac_address", nonempty s.mac_address)
      ∷ (codes "last_seen", some (text s.last_seen))
      ∷ []

  opt-prepend :
      {A : Type 0} (k : Bytes) (f : A → Json F) (o : Option A) {rest more : List (Member F)}
      → rest ≡ more
      → opt k f o rest ≡ prepend k (map_option f o) more
  unfolding opt prepend
  opt-prepend k f none e = e
  opt-prepend k f (some a) e = ap (◌∷◌ (k, f a)) e

  opt_text-prepend :
      (k s : Bytes) {rest more : List (Member F)}
      → rest ≡ more
      → opt_text k s rest ≡ prepend k (nonempty s) more
  unfolding opt_text prepend nonempty
  opt_text-prepend k [] e = e
  opt_text-prepend k (c ∷ s) e = ap (◌∷◌ (k, text (c ∷ s))) e

  -- A key that no slot has is not found, and one slot is found at its key.
  lookup-absent : (k : Bytes) (d : Slots F) → lookup k d ≡ none → lookup k (present d) ≡ none
  unfolding present prepend lookup
  lookup-absent k [] h = refl
  lookup-absent k ((j, none) ∷ d) h = lookup-absent k d (ground arith)
  lookup-absent k ((j, some v) ∷ d) h = ground (arith, lookup-absent k d)

  lookup-one_of : (k : Bytes) (d : Slots F) → one_of k (keys d) ≡ false → lookup k d ≡ none
  unfolding lookup one_of
  lookup-one_of k [] h = refl
  lookup-one_of k ((j, o) ∷ d) h = ground (arith, equal_iff j k, equal_iff k j, lookup-one_of k d)

  lookup-present :
      (k : Bytes) (d : Slots F)
      → distinct (keys d) ≡ true
      → lookup k (present d) ≡ flat (lookup k d)
  unfolding present prepend lookup flat distinct
  lookup-present k [] h = refl
  lookup-present k ((j, none) ∷ d) h = elim (Bool-cases (equal j k)) [
    | inl same ↦
        let e : j ≡ k = (equal_iff j k).0 same in
        let fresh : one_of j (keys d) ≡ false = ground arith in
        rw same
          (lookup-absent k d (lookup-one_of k d (ap (λ i. one_of i (keys d)) (sym e) ∙ fresh)))
    | inr other ↦ rw other (lookup-present k d (ground arith))
  ]
  lookup-present k ((j, some v) ∷ d) h = elim (Bool-cases (equal j k)) [
    | inl same ↦ rw same
    | inr other ↦ rw other (lookup-present k d (ground arith))
  ]

  members-slots : (s : State F) → members s ≡ present (slots s)
  unfolding members present prepend slots
  members-slots s =
      (opt-prepend _ flag s.vllm_up (
        opt_text-prepend _ s.model (
          opt-prepend _ num s.kv_cache_usage_pct (
            opt-prepend _ int s.requests_running (
              opt-prepend _ int s.requests_waiting (
                opt-prepend _ int s.waiting_for_capacity (
                  opt-prepend _ num s.preemptions (
                    opt-prepend _ num s.prefix_cache_hit_rate_pct (
                      opt-prepend _ num s.generation_tokens_per_second (
                        opt-prepend _ int s.max_model_len (
                          opt-prepend _ int s.kv_cache_tokens (
                            opt-prepend _ num s.max_concurrency (
                              opt-prepend _ flag s.prefix_caching_enabled (
                                opt-prepend _ num s.gpu_utilization_pct (
                                  opt-prepend _ num s.gpu_clock_mhz (
                                    opt-prepend _ num s.gpu_temperature_c (
                                      opt-prepend _ num s.gpu_power_w (
                                        opt-prepend _ int s.memory_available_bytes (
                                          opt-prepend _ num s.memory_used_pct (
                                            opt_text-prepend _ s.mac_address
                                              refl))))))))))))))))))))

  distinct-slots : (s : State F) → distinct (keys (slots s)) ≡ true
  unfolding slots distinct equal one_of
  distinct-slots s = refl

  -- A key of the document is found with the value of its slot.
  pub lookup-members : (k : Bytes) (s : State F) → lookup k (members s) ≡ flat (lookup k (slots s))
  lookup-members k s =
      ap (lookup k) (members-slots s) ∙ lookup-present k (slots s) (distinct-slots s)
