-- ===== src/Main/Run/Failures.antt =====
-- Why a run fails.
use sparkwrangler.Base.{
  true, false, List, [], ◌∷◌, ◌≡◌, ◌≢◌, ◌↔◌, ◌⊎◌, inl, inr, refl, sym, Bytes, Result, ok, err,
  err_injective, Bool-cases,
}
use sparkwrangler.Config.Load.{Config, ConfigError, load}
use sparkwrangler.Float.{Float}
use sparkwrangler.Host.Network.{MacError, primary_mac}
use sparkwrangler.Main.Poll.{Event}
use sparkwrangler.Main.Run.{
  World, Ending, RunError, bad_config, no_mac, no_broker, is_unset, after_connect, with_mac,
  after_mac, after_load, run,
}
use sparkwrangler.Main.Setup.{node_options}
use sparkwrangler.Publisher.Mqtt.Connect.{ClientOptions, new_mqtt}
use sparkwrangler.Publisher.Mqtt.{Mqtt, MqttError}

is_unset_iff : (s : Bytes) → (is_unset s ≡ true) ↔ (s ≡ [])
unfolding is_unset
is_unset_iff [] = ((λ h. refl), λ h. refl)
is_unset_iff (c ∷ s) = ((λ h. cc), λ h. cc)

is_unset-false_iff : (s : Bytes) → (is_unset s ≡ false) ↔ (s ≢ [])
unfolding is_unset
is_unset-false_iff [] = ((λ h. cc), λ h. absurd (h refl))
is_unset-false_iff (c ∷ s) = ((λ h e. cc), λ h. refl)

module _ {F : Type 0} ⦃fl : Float F⦄ (w : World F) where
  -- What stops a run, in terms of what its parts answer: settings that are refused, the address of an
  -- interface that is named, or the broker.
  abbrev pub IsStopped : List Bytes → RunError → Type 0
  IsStopped args (bad_config x) = load w.parsers w.env w.hostname args ≡ err x
  IsStopped args (no_mac x) =
      (cfg : Config) × (load w.parsers w.env w.hostname args ≡ ok cfg)
      × (primary_mac w.sys cfg.net_interface ≡ err x)
      × (cfg.net_interface ≢ [])
  IsStopped args (no_broker x) =
      (cfg : Config) × (load w.parsers w.env w.hostname args ≡ ok cfg)
      × (((m : Bytes) × (primary_mac w.sys cfg.net_interface ≡ ok m))
          ⊎ ((y : MacError) × (primary_mac w.sys cfg.net_interface ≡ err y)
              × (cfg.net_interface ≡ [])))
      × (new_mqtt w.trust (node_options cfg) w.connect ≡ err x)

module _ {F : Type 0} ⦃fl : Float F⦄ (w : World F) (es : List (Event F)) (e : Ending F) where
  after_connect_err :
      (cfg : Config) (m : Bytes) (r : Result MqttError (Mqtt × ClientOptions F)) {x : RunError}
      → after_connect w es e cfg m r ≡ err x
      → (y : MqttError) × (x ≡ no_broker y) × (r ≡ err y)
  unfolding after_connect
  after_connect_err cfg m (err y) h = (y, sym (err_injective h), refl)
  after_connect_err cfg m (ok (mq, co)) h = cc

  with_mac_err :
      (cfg : Config) (m : Bytes) {x : RunError}
      → with_mac w es e cfg m ≡ err x
      → (y : MqttError) × (x ≡ no_broker y)
        × (new_mqtt w.trust (node_options cfg) w.connect ≡ err y)
  unfolding with_mac
  with_mac_err cfg m h = after_connect_err cfg m (new_mqtt w.trust (node_options cfg) w.connect) h

  after_mac_err :
      (args : List Bytes) (cfg : Config) (r : Result MacError Bytes) (x : RunError)
      → load w.parsers w.env w.hostname args ≡ ok cfg
      → primary_mac w.sys cfg.net_interface ≡ r
      → after_mac w es e cfg r ≡ err x
      → IsStopped w args x
  unfolding after_mac
  after_mac_err args cfg (ok m) x l p h =
      let (y, k, n) = with_mac_err cfg m h in rw k (cfg, l, inl (m, p), n)
  after_mac_err args cfg (err y) x l p h = elim (Bool-cases (is_unset cfg.net_interface)) [
    | inl unset ↦
        let (z, k, n) = with_mac_err cfg [] (rw unset at h) in
        rw k (cfg, l, inr (y, p, (is_unset_iff cfg.net_interface).0 unset), n)
    | inr set ↦
        rw⁻¹ (err_injective (rw set at h)) (cfg, l, p, (is_unset-false_iff cfg.net_interface).0 set)
  ]

  after_load_err :
      (args : List Bytes) (r : Result ConfigError Config) (x : RunError)
      → load w.parsers w.env w.hostname args ≡ r
      → after_load w es e r ≡ err x
      → IsStopped w args x
  unfolding after_load
  after_load_err args (err y) x l h = rw⁻¹ (err_injective h) l
  after_load_err args (ok cfg) x l h =
      after_mac_err args cfg (primary_mac w.sys cfg.net_interface) x l refl h

  with_mac_stopped :
      (cfg : Config) (m : Bytes) (x : MqttError)
      → new_mqtt w.trust (node_options cfg) w.connect ≡ err x
      → with_mac w es e cfg m ≡ err (no_broker x)
  unfolding with_mac after_connect
  with_mac_stopped cfg m x h = rw h

  run_stopped : (args : List Bytes) (x : RunError) → IsStopped w args x → run w es e args ≡ err x
  unfolding run after_load after_mac
  run_stopped args (bad_config x) h = rw h
  run_stopped args (no_mac x) (cfg, l, p, set) =
      rw (l, p, (is_unset-false_iff cfg.net_interface).1 set)
  run_stopped args (no_broker x) (cfg, l, inl (m, p), n) = rw (l, p) (with_mac_stopped cfg m x n)
  run_stopped args (no_broker x) (cfg, l, inr (y, p, unset), n) =
      rw (l, p, (is_unset_iff cfg.net_interface).1 unset) (with_mac_stopped cfg [] x n)

  -- A run fails exactly if its settings are refused, an interface is named whose address cannot be read,
  -- or the broker is refused or does not answer, and its error is the one of that part. A node that names
  -- no interface goes on without an address.
  pub run_err_iff :
      (args : List Bytes) (x : RunError) → (run w es e args ≡ err x) ↔ IsStopped w args x
  unfolding run
  run_err_iff args x = ((λ h. after_load_err args _ x refl h), λ h. run_stopped args x h)
