-- ===== src/Publisher/Mqtt.antt =====
-- internal/publisher/mqtt.go: the transport. The broker's client is a parameter: what the broker answers
-- to a connection, and what becomes of each message that an operation gives it.
pub mod Connect
pub mod Topics
pub mod Session
pub mod Retained
pub mod Contract
use sparkwrangler.Base.Int.{ℤ, pos}
use sparkwrangler.Base.{
  ℕ, Bool, true, false, not, ◌&&◌, Option, none, some, List, [], ◌∷◌, ◌++◌, if◌then◌else◌, Bytes,
  codes, Result, ok, err,
}
use sparkwrangler.Discovery.Device.{
  Device, Config, discovery_topic, state_topic, availability_topic,
}
use sparkwrangler.Discovery.Sensors.{sensors}
use sparkwrangler.Discovery.Templates.{version}
use sparkwrangler.Float.{Float}
use sparkwrangler.Publisher.Json.{Member, marshal_state}
use sparkwrangler.Publisher.State.{State}
use sparkwrangler.Publisher.Tls.{
  Trust, TlsOptions, TlsConfig, UrlError, TlsError, Url, scheme_is_tls, validate_broker_url,
  build_tls_config,
}

abbrev pub payload_online : Bytes
payload_online = codes "online"

abbrev pub payload_offline : Bytes
payload_offline = codes "offline"

-- The type `MQTT`, without its client and its logger.
pub record Mqtt : Type 0 where
  pub node_id : Bytes
  pub with_vllm : Bool
  pub state_topic : Bytes
  pub avail_topic : Bytes
  pub disco_topic : Bytes
  pub qos : ℕ

-- What a message says. The text that the encoder makes of a document is not modelled.
pub data Payload (F : Type 0) : Type 0 where
  raw : Bytes → Payload F
  discovery : Config → Payload F
  state : List (Member F) → Payload F

pub record Message (F : Type 0) : Type 0 where
  pub topic : Bytes
  pub payload : Payload F
  pub qos : ℕ
  pub retain : Bool

pub data Token : Type 0 where
  completed : Token
  failed : Token
  timed_out : Token

pub data MqttError : Type 0 where
  node_id_required : MqttError
  url : UrlError → MqttError
  tls : TlsError → MqttError
  connect_timed_out : MqttError
  connect_failed : MqttError
  marshal : MqttError
  publish_timed_out : MqttError
  publish_failed : MqttError

pub or_default : Bytes → Bytes → Bytes
or_default [] d = d
or_default (c ∷ s) d = c ∷ s

module _ {F : Type 0} where
  -- `SetWill`
  unfoldable pub will : Mqtt → Message F
  will p = record {
    topic = p.avail_topic;
    payload = raw payload_offline;
    qos = p.qos;
    retain = true;
  }

-- `device`, of the package's variable `Device`.
unfoldable pub device : Device → Mqtt → Device
unfolding or_default
device d p = record d { identifiers = p.node_id ∷ []; name = or_default d.name p.node_id }

-- The literal of `Announce`.
unfoldable pub discovery_config : Device → Mqtt → Config
unfolding device
discovery_config d p = record {
  device = device d p;
  origin = record {
    name = codes "sparkwrangler";
    sw_version = version;
    support_url = codes "https://github.com/nugget/sparkwrangler";
  };
  components = sensors p.node_id p.with_vllm;
  state_topic = p.state_topic;
  availability_topic = p.avail_topic;
  payload_available = payload_online;
  payload_not_avail = payload_offline;
  qos = pos p.qos;
}

-- The messages that an operation gives to the client, in order, and its error.
pub record Sent (F : Type 0) : Type 0 where
  pub messages : List (Message F)
  pub error : Option MqttError

publish_error : Token → Option MqttError
publish_error completed = none
publish_error failed = some publish_failed
publish_error timed_out = some publish_timed_out

-- What becomes of each message of one operation.
abbrev pub Delivery : Type 0 → Type 0
Delivery F = Message F → Token

module _ {F : Type 0} where
  message : Mqtt → Bytes → Payload F → Message F
  message p topic payload = record { topic = topic; payload = payload; qos = p.qos; retain = true }

  -- `publish`, which is only called with `retain` set.
  publish : Delivery F → Mqtt → Bytes → Payload F → Sent F
  unfolding message publish_error
  publish d p topic payload = record {
    messages = message p topic payload ∷ [];
    error = publish_error (d (message p topic payload));
  }

  -- `if err := …; err != nil { return err }`
  then_messages : List (Message F) → Option MqttError → Sent F → Sent F
  then_messages ms none next = record next { messages = ms ++ next.messages }
  then_messages ms (some e) next = record { messages = ms; error = some e }

  then_send : Sent F → Sent F → Sent F
  unfolding then_messages
  then_send sent next = then_messages sent.messages sent.error next

  unfoldable pub announce : Delivery F → Device → Mqtt → Sent F
  unfolding publish then_send
  announce d dev p =
      then_send (publish d p p.disco_topic (discovery (discovery_config dev p)))
        (publish d p p.avail_topic (raw payload_online))

  -- The messages of `Close`, whose errors are only logged, before it disconnects.
  unfoldable pub close : Delivery F → Mqtt → Sent F
  unfolding publish
  close d p = publish d p p.avail_topic (raw payload_offline)

  publish_document : Delivery F → Mqtt → Option (List (Member F)) → Sent F
  unfolding publish
  publish_document d p none = record { messages = []; error = some marshal }
  publish_document d p (some ms) = publish d p p.state_topic (state ms)

module _ {F : Type 0} ⦃fl : Float F⦄ where
  unfoldable pub publish_state : Delivery F → Mqtt → State F → Sent F
  unfolding publish_document
  publish_state d p s = publish_document d p (marshal_state s)
