-- ===== src/Publisher/Mqtt/Connect.antt =====
-- `NewMQTT` of internal/publisher/mqtt.go: the checks of the options, the client's options, and the
-- connection, whose outcome is a parameter.
use sparkwrangler.Base.{
  ℕ, Bool, true, false, not, ◌&&◌, Option, none, some, List, [], ◌∷◌, ◌++◌, if◌then◌else◌, Bytes,
  codes, Result, ok, err,
}
use sparkwrangler.Discovery.Device.{discovery_topic, state_topic, availability_topic}
use sparkwrangler.Publisher.Mqtt.{
  Mqtt, Message, MqttError, Token, completed, failed, timed_out, node_id_required, connect_failed,
  connect_timed_out, tls, url, or_default, will,
}
use sparkwrangler.Publisher.Tls.{
  Trust, TlsOptions, TlsConfig, UrlError, TlsError, Url, scheme_is_tls, validate_broker_url,
  build_tls_config,
}

pub record MqttOptions : Type 0 where
  pub broker_url : Bytes
  pub client_id : Bytes
  pub username : Bytes
  pub password : Bytes
  pub node_id : Bytes
  pub discovery_prefix : Bytes
  pub topic_prefix : Bytes
  pub with_vllm : Bool
  pub tls : TlsOptions
  pub qos : ℕ

-- The options of the broker's client that are set, apart from the intervals of reconnection.
pub record ClientOptions (F : Type 0) : Type 0 where
  pub broker : Bytes
  pub client_id : Bytes
  pub username : Bytes
  pub password : Bytes
  pub clean_session : Bool
  pub tls_config : Option TlsConfig
  pub will : Message F

-- The topics of a node, behind the prefixes with their defaults.
unfoldable pub new_topics : MqttOptions → Mqtt
unfolding or_default
new_topics o = record {
  node_id = o.node_id;
  with_vllm = o.with_vllm;
  state_topic = state_topic (or_default o.topic_prefix (codes "sparkwrangler")) o.node_id;
  avail_topic = availability_topic (or_default o.topic_prefix (codes "sparkwrangler")) o.node_id;
  disco_topic = discovery_topic (or_default o.discovery_prefix (codes "homeassistant")) o.node_id;
  qos = o.qos;
}

pub data Warning : Type 0 where
  password_in_the_clear : Warning
  certificate_not_verified : Warning

unfoldable pub is_set : Bytes → Bool
is_set [] = false
is_set (c ∷ s) = true

unverified : Option TlsConfig → Bool
unverified none = false
unverified (some c) = c.insecure_skip_verify

-- `warnIfCredentialsAreExposed`
unfoldable pub warn_if_credentials_are_exposed :
    Trust → MqttOptions → Option TlsConfig → List Warning
unfolding is_set unverified
warn_if_credentials_are_exposed t o c =
    (if is_set o.password && not (scheme_is_tls t o.broker_url)
      then password_in_the_clear ∷ []
      else [])
    ++ (if unverified c then certificate_not_verified ∷ [] else [])

module _ {F : Type 0} where
  unfoldable pub client_options : MqttOptions → Option TlsConfig → ClientOptions F
  unfolding or_default will new_topics
  client_options o c = record {
    broker = o.broker_url;
    client_id = or_default o.client_id (codes "sparkwrangler-" ++ o.node_id);
    username = o.username;
    password = o.password;
    clean_session = false;
    tls_config = c;
    will = will (new_topics o);
  }

  unfoldable pub connected :
      MqttOptions → Option TlsConfig → Token → Result MqttError (Mqtt × ClientOptions F)
  unfolding new_topics client_options
  connected o c completed = ok (new_topics o, client_options o c)
  connected o c failed = err connect_failed
  connected o c timed_out = err connect_timed_out

  unfoldable pub configured :
      MqttOptions
      → (ClientOptions F → Token)
      → Result TlsError (Option TlsConfig)
      → Result MqttError (Mqtt × ClientOptions F)
  unfolding connected client_options
  configured o connect (err e) = err (tls e)
  configured o connect (ok c) = connected o c (connect (client_options o c))

  unfoldable pub validated :
      Trust
      → MqttOptions
      → (ClientOptions F → Token)
      → Result UrlError Url
      → Result MqttError (Mqtt × ClientOptions F)
  unfolding configured
  validated t o connect (err e) = err (url e)
  validated t o connect (ok u) = configured o connect (build_tls_config t o.broker_url o.tls)

  -- `NewMQTT`, and the options that its client connects with.
  unfoldable pub new_mqtt :
      Trust → MqttOptions → (ClientOptions F → Token) → Result MqttError (Mqtt × ClientOptions F)
  unfolding is_set validated
  new_mqtt t o connect =
      if is_set o.node_id
      then validated t o connect (validate_broker_url t o.broker_url)
      else err node_id_required
