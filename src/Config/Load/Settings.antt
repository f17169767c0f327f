-- ===== src/Config/Load/Settings.antt =====
-- The table of a configuration's settings: the flag, the variable of the environment and the default of
-- each, written out once more beside `Load` of internal/config/config.go.
use sparkwrangler.Base.Int.{pos, ◌*ℤ◌}
use sparkwrangler.Base.{false, Option, none, some, List, [], ◌∷◌, Bytes, codes}
use sparkwrangler.Config.Flags.{Parsers, Value, text, integer, boolean, duration, parse_bool}
use sparkwrangler.Config.Load.{Config, second}
use sparkwrangler.Sdnotify.{Env}
use sparkwrangler.Text.Decimal.{parse_int64}

pub record Setting : Type 0 where
  pub flag : Bytes
  pub variable : Bytes
  pub fallback : Value
  pub value : Value

abbrev row : Bytes → Bytes → Value → Value → Setting
row f v d x = record { flag = f; variable = v; fallback = d; value = x }

-- The settings of a configuration on a host.
unfoldable pub settings : Bytes → Config → List Setting
settings host c =
    row (codes "node-id") (codes "SPARKWRANGLER_NODE_ID") (text host) (text c.node_id)
    ∷ row (codes "node-name") (codes "SPARKWRANGLER_NODE_NAME") (text []) (text c.node_name)
    ∷ row (codes "vllm-url") (codes "SPARKWRANGLER_VLLM_URL") (text (codes "http://localhost:8000"))
        (text c.vllm_url)
    ∷ row (codes "config-url") (codes "SPARKWRANGLER_CONFIG_URL") (text []) (text c.config_url)
    ∷ row (codes "vllm-timeout") (codes "SPARKWRANGLER_VLLM_TIMEOUT") (duration (pos 5 *ℤ second))
        (duration c.vllm_timeout)
    ∷ row (codes "broker") (codes "SPARKWRANGLER_BROKER") (text (codes "tcp://localhost:1883"))
        (text c.broker_url)
    ∷ row (codes "client-id") (codes "SPARKWRANGLER_CLIENT_ID") (text []) (text c.client_id)
    ∷ row (codes "username") (codes "SPARKWRANGLER_USERNAME") (text []) (text c.username)
    ∷ row (codes "password") (codes "SPARKWRANGLER_PASSWORD") (text []) (text c.password)
    ∷ row (codes "discovery-prefix") (codes "SPARKWRANGLER_DISCOVERY_PREFIX")
        (text (codes "homeassistant")) (text c.discovery_prefix)
    ∷ row (codes "topic-prefix") (codes "SPARKWRANGLER_TOPIC_PREFIX") (text (codes "sparkwrangler"))
        (text c.topic_prefix)
    ∷ row (codes "qos") (codes "SPARKWRANGLER_QOS") (integer (pos 1)) (integer c.qos)
    ∷ row (codes "ca-file") (codes "SPARKWRANGLER_CA_FILE") (text []) (text c.ca_file)
    ∷ row (codes "tls-cert") (codes "SPARKWRANGLER_TLS_CERT") (text []) (text c.cert_file)
    ∷ row (codes "tls-key") (codes "SPARKWRANGLER_TLS_KEY") (text []) (text c.key_file)
    ∷ row (codes "tls-servername") (codes "SPARKWRANGLER_TLS_SERVERNAME") (text [])
        (text c.tls_server)
    ∷ row (codes "tls-insecure") (codes "SPARKWRANGLER_TLS_INSECURE") (boolean false)
        (boolean c.tls_insecure)
    ∷ row (codes "interval") (codes "SPARKWRANGLER_INTERVAL") (duration (pos 15 *ℤ second))
        (duration c.interval)
    ∷ row (codes "nvidia-smi") (codes "SPARKWRANGLER_NVIDIA_SMI") (text []) (text c.nvidia_smi_path)
    ∷ row (codes "device-model") (codes "SPARKWRANGLER_DEVICE_MODEL") (text [])
        (text c.device_model)
    ∷ row (codes "net-interface") (codes "SPARKWRANGLER_NET_INTERFACE") (text [])
        (text c.net_interface)
    ∷ row (codes "area") (codes "SPARKWRANGLER_AREA") (text []) (text c.area)
    ∷ row (codes "log-level") (codes "SPARKWRANGLER_LOG_LEVEL") (text (codes "info"))
        (text c.log_level)
    ∷ []

abbrev pub said : {A : Type 0} → Option A → A → A
said none d = d
said (some v) d = v

-- What the environment says of a setting with a default: the content of a variable that is set is the
-- text itself, though it be empty; it is a number, a truth value or a duration if it reads as one. A
-- variable that is not set reads as the empty text does.
abbrev pub stated : Parsers → Env → Bytes → Value → Value
stated p e v (text d) = text (said (e v) d)
stated p e v (integer d) = integer (said (parse_int64 (said (e v) [])) d)
stated p e v (boolean d) = boolean (said (parse_bool (said (e v) [])) d)
stated p e v (duration d) = duration (said (p.duration (said (e v) [])) d)
