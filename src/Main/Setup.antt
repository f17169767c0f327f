-- ===== src/Main/Setup.antt =====
-- What `run` of cmd/sparkwrangler/main.go makes of the settings, and the period of the loop.
use sparkwrangler.Base.Int.{ℤ, pos, negsuc, ltb_ℤ}
use sparkwrangler.Base.{ℕ, ◌-◌, ◌%◌, not, ◌&&◌, List, [], ◌∷◌, if◌then◌else◌, Bytes, codes}
use sparkwrangler.Config.Load.{Config, worker_mode}
use sparkwrangler.Discovery.Device.{Device}
use sparkwrangler.Discovery.Templates.{version}
use sparkwrangler.Publisher.Mqtt.Connect.{MqttOptions}

unfoldable pub mac_connections : Bytes → List (Bytes × Bytes)
mac_connections [] = []
mac_connections (c ∷ mac) = (codes "mac", c ∷ mac) ∷ []

unfoldable pub watchdog_tick : ℤ → ℤ → ℤ
watchdog_tick interval watchdog =
    if ltb_ℤ (pos 0) watchdog && ltb_ℤ watchdog interval then watchdog else interval

or_else : Bytes → Bytes → Bytes
or_else [] rest = rest
or_else (c ∷ s) rest = c ∷ s

unfoldable pub first_non_empty : List Bytes → Bytes
unfolding or_else
first_non_empty [] = []
first_non_empty (v ∷ vs) = or_else v (first_non_empty vs)

-- The device that `run` declares.
unfoldable pub node_device : Config → Bytes → Device
unfolding first_non_empty mac_connections
node_device cfg mac = record {
  identifiers = [];
  connections = mac_connections mac;
  name = first_non_empty (cfg.node_name ∷ cfg.node_id ∷ []);
  manufacturer = codes "NVIDIA";
  model = cfg.device_model;
  model_id = [];
  sw_version = version;
  hw_version = [];
  serial_number = [];
  suggested_area = cfg.area;
  config_url = cfg.config_url;
}

-- `byte(n)`
byte : ℤ → ℕ
byte (pos n) = n % 256
byte (negsuc n) = 255 - n % 256

-- The options that `run` connects with.
unfoldable pub node_options : Config → MqttOptions
unfolding byte
node_options cfg = record {
  broker_url = cfg.broker_url;
  client_id = cfg.client_id;
  username = cfg.username;
  password = cfg.password;
  node_id = cfg.node_id;
  discovery_prefix = cfg.discovery_prefix;
  topic_prefix = cfg.topic_prefix;
  with_vllm = not (worker_mode cfg);
  tls = record {
    ca_file = cfg.ca_file;
    cert_file = cfg.cert_file;
    key_file = cfg.key_file;
    server_name = cfg.tls_server;
    insecure = cfg.tls_insecure;
  };
  qos = byte cfg.qos;
}
