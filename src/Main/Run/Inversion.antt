-- ===== src/Main/Run/Inversion.antt =====
-- What a run that serves has gone through.
use sparkwrangler.Base.{
  List, [], ◌≡◌, refl, Bytes, Result, ok, err, ok_injective, sym, Bool-cases, inl, inr,
}
use sparkwrangler.Config.Load.{Config, ConfigError, load}
use sparkwrangler.Float.{Float}
use sparkwrangler.Host.Network.{MacError}
use sparkwrangler.Main.Poll.{Action, Event}
use sparkwrangler.Main.Run.{
  World, Ending, is_unset, serve, after_connect, with_mac, after_mac, after_load, run,
}
use sparkwrangler.Main.Setup.{node_options}
use sparkwrangler.Publisher.Mqtt.Connect.{ClientOptions, new_mqtt}
use sparkwrangler.Publisher.Mqtt.Session.{IsSession, new_mqtt-IsSession}
use sparkwrangler.Publisher.Mqtt.{Mqtt, MqttError}

module _ {F : Type 0} ⦃fl : Float F⦄ (w : World F) (es : List (Event F)) (e : Ending F) where
  -- A run that serves: the settings that it loaded, the address, and the session that it opened.
  pub record IsServing (args : List Bytes) (acts : List (Action F)) : Type 0 where
    pub cfg : Config
    pub mac : Bytes
    pub mq : Mqtt
    pub options : ClientOptions F
    pub loaded : load w.parsers w.env w.hostname args ≡ ok cfg
    pub session : IsSession w.trust (node_options cfg) w.connect mq options
    pub served : acts ≡ serve w es e cfg mac mq

  after_connect_ok :
      (args : List Bytes) (cfg : Config) (m : Bytes) (r : Result MqttError (Mqtt × ClientOptions F))
      {acts : List (Action F)}
      → load w.parsers w.env w.hostname args ≡ ok cfg
      → new_mqtt w.trust (node_options cfg) w.connect ≡ r
      → after_connect w es e cfg m r ≡ ok acts
      → IsServing args acts
  unfolding after_connect
  after_connect_ok args cfg m (err x) l n h = cc
  after_connect_ok args cfg m (ok (mq, co)) l n h = record {
    cfg = cfg;
    mac = m;
    mq = mq;
    options = co;
    loaded = l;
    session = new_mqtt-IsSession w.trust (node_options cfg) w.connect n;
    served = sym (ok_injective h);
  }

  after_mac_ok :
      (args : List Bytes) (cfg : Config) (r : Result MacError Bytes) {acts : List (Action F)}
      → load w.parsers w.env w.hostname args ≡ ok cfg
      → after_mac w es e cfg r ≡ ok acts
      → IsServing args acts
  unfolding after_mac with_mac
  after_mac_ok args cfg (ok m) l h = after_connect_ok args cfg m _ l refl h
  after_mac_ok args cfg (err x) l h = elim (Bool-cases (is_unset cfg.net_interface)) [
    | inl unset ↦ after_connect_ok args cfg [] _ l refl (rw unset at h)
    | inr set ↦ cc (rw set at h)
  ]

  after_load_ok :
      (args : List Bytes) (r : Result ConfigError Config) {acts : List (Action F)}
      → load w.parsers w.env w.hostname args ≡ r
      → after_load w es e r ≡ ok acts
      → IsServing args acts
  unfolding after_load
  after_load_ok args (err x) l h = cc
  after_load_ok args (ok cfg) l h = after_mac_ok args cfg _ l h

  -- A run that gives actions is one that serves.
  pub run_ok :
      (args : List Bytes) {acts : List (Action F)} → run w es e args ≡ ok acts → IsServing args acts
  unfolding run
  run_ok args h = after_load_ok args _ refl h
