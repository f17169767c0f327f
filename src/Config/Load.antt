-- ===== src/Config/Load.antt =====
-- internal/config/config.go: the settings of a node. The parsers of durations and of integers in any
-- base are parameters.
pub mod Valid
pub mod Settings
pub mod Sources
use sparkwrangler.Base.Int.{ℤ, pos, ◌*ℤ◌, ltb_ℤ}
use sparkwrangler.Base.{
  ℕ, Bool, true, false, not, ◌||◌, Option, none, some, List, [], ◌∷◌, ◌++◌, ◌==◌, if◌then◌else◌,
  Bytes, codes, Dict, insert, lookup, Result, ok, err, take, zero, suc,
}
use sparkwrangler.Config.Flags.{
  Parsers, FlagSet, FlagError, Value, text, integer, boolean, duration, parse, parse_bool,
}
use sparkwrangler.Sdnotify.{Env}
use sparkwrangler.Text.Decimal.{parse_int64}
use sparkwrangler.Text.Search.{index_any?}
use sparkwrangler.Text.Space.{trim_space}

pub record Config : Type 0 where
  pub node_id : Bytes
  pub node_name : Bytes
  pub vllm_url : Bytes
  pub vllm_timeout : ℤ
  pub config_url : Bytes
  pub broker_url : Bytes
  pub client_id : Bytes
  pub username : Bytes
  pub password : Bytes
  pub discovery_prefix : Bytes
  pub topic_prefix : Bytes
  pub qos : ℤ
  pub ca_file : Bytes
  pub cert_file : Bytes
  pub key_file : Bytes
  pub tls_server : Bytes
  pub tls_insecure : Bool
  pub interval : ℤ
  pub nvidia_smi_path : Bytes
  pub device_model : Bytes
  pub net_interface : Bytes
  pub area : Bytes
  pub log_level : Bytes

pub data ConfigError : Type 0 where
  flags : FlagError → ConfigError
  no_node_id : ConfigError
  short_interval : ℤ → ConfigError
  bad_qos : ℤ → ConfigError

-- A `time.Duration` counts nanoseconds.
abbrev pub second : ℤ
second = pos 1_000_000_000

is_blank : Bytes → Bool
is_blank [] = true
is_blank (c ∷ s) = false

-- `Config.WorkerMode`
unfoldable pub worker_mode : Config → Bool
unfolding is_blank
worker_mode c = is_blank (trim_space c.vllm_url)

-- `Config.validate`, which returns the configuration that it accepts.
unfoldable pub validate : Config → Result ConfigError Config
unfolding is_blank
validate c =
    if is_blank c.node_id
    then err no_node_id
    else if ltb_ℤ c.interval second
    then err (short_interval c.interval)
    else if ltb_ℤ c.qos (pos 0) || ltb_ℤ (pos 2) c.qos
    then err (bad_qos c.qos)
    else ok c

abbrev or_default {ℓ} : {A : Type ℓ} → Option A → A → A
or_default none fallback = fallback
or_default (some v) fallback = v

-- `strings.Index(hostname, ".")`, at a position behind the first byte.
cut_at : Bytes → Option ℕ → Bytes
cut_at host none = host
cut_at host (some zero) = host
cut_at host (some (suc i)) = take (suc i) host

unfoldable pub short_hostname : Bytes → Bytes
unfolding cut_at
short_hostname host = cut_at host (index_any? (λ c. c == b'.') host)

unfoldable pub env_text : Env → Bytes → Bytes → Bytes
env_text e name fallback = or_default (e (codes "SPARKWRANGLER_" ++ name)) fallback

unfoldable pub env_bool : Env → Bytes → Bool → Bool
unfolding env_text
env_bool e name fallback = or_default (parse_bool (env_text e name [])) fallback

unfoldable pub env_int : Env → Bytes → ℤ → ℤ
unfolding env_text
env_int e name fallback = or_default (parse_int64 (env_text e name [])) fallback

unfoldable pub env_duration : Parsers → Env → Bytes → ℤ → ℤ
unfolding env_text
env_duration p e name fallback = or_default (p.duration (env_text e name [])) fallback

-- The flags with their defaults, which the environment overrides.
unfoldable pub flag_set : Parsers → Env → Bytes → FlagSet
unfolding env_text env_bool env_int env_duration
flag_set p e host =
    (codes "node-id", text (env_text e (codes "NODE_ID") host))
    ∷ (codes "node-name", text (env_text e (codes "NODE_NAME") []))
    ∷ (codes "vllm-url", text (env_text e (codes "VLLM_URL") (codes "http://localhost:8000")))
    ∷ (codes "config-url", text (env_text e (codes "CONFIG_URL") []))
    ∷ (codes "vllm-timeout", duration (env_duration p e (codes "VLLM_TIMEOUT") (pos 5 *ℤ second)))
    ∷ (codes "broker", text (env_text e (codes "BROKER") (codes "tcp://localhost:1883")))
    ∷ (codes "client-id", text (env_text e (codes "CLIENT_ID") []))
    ∷ (codes "username", text (env_text e (codes "USERNAME") []))
    ∷ (codes "password", text (env_text e (codes "PASSWORD") []))
    ∷ (
      codes "discovery-prefix",
      text (env_text e (codes "DISCOVERY_PREFIX") (codes "homeassistant")),
    )
    ∷ (codes "topic-prefix", text (env_text e (codes "TOPIC_PREFIX") (codes "sparkwrangler")))
    ∷ (codes "qos", integer (env_int e (codes "QOS") (pos 1)))
    ∷ (codes "ca-file", text (env_text e (codes "CA_FILE") []))
    ∷ (codes "tls-cert", text (env_text e (codes "TLS_CERT") []))
    ∷ (codes "tls-key", text (env_text e (codes "TLS_KEY") []))
    ∷ (codes "tls-servername", text (env_text e (codes "TLS_SERVERNAME") []))
    ∷ (codes "tls-insecure", boolean (env_bool e (codes "TLS_INSECURE") false))
    ∷ (codes "interval", duration (env_duration p e (codes "INTERVAL") (pos 15 *ℤ second)))
    ∷ (codes "nvidia-smi", text (env_text e (codes "NVIDIA_SMI") []))
    ∷ (codes "device-model", text (env_text e (codes "DEVICE_MODEL") []))
    ∷ (codes "net-interface", text (env_text e (codes "NET_INTERFACE") []))
    ∷ (codes "area", text (env_text e (codes "AREA") []))
    ∷ (codes "log-level", text (env_text e (codes "LOG_LEVEL") (codes "info")))
    ∷ []

-- The value of a flag; every flag that is read is defined, with a value of its type.
text_value : Option Value → Bytes
text_value (some (text s)) = s
text_value _ = []

int_value : Option Value → ℤ
int_value (some (integer n)) = n
int_value (some (duration n)) = n
int_value _ = pos 0

bool_value : Option Value → Bool
bool_value (some (boolean b)) = b
bool_value _ = false

-- The variables that the flags are bound to.
unfoldable pub bound : FlagSet → Config
unfolding text_value int_value bool_value
bound fs = record {
  node_id = text_value (lookup (codes "node-id") fs);
  node_name = text_value (lookup (codes "node-name") fs);
  vllm_url = text_value (lookup (codes "vllm-url") fs);
  config_url = text_value (lookup (codes "config-url") fs);
  vllm_timeout = int_value (lookup (codes "vllm-timeout") fs);
  broker_url = text_value (lookup (codes "broker") fs);
  client_id = text_value (lookup (codes "client-id") fs);
  username = text_value (lookup (codes "username") fs);
  password = text_value (lookup (codes "password") fs);
  discovery_prefix = text_value (lookup (codes "discovery-prefix") fs);
  topic_prefix = text_value (lookup (codes "topic-prefix") fs);
  qos = int_value (lookup (codes "qos") fs);
  ca_file = text_value (lookup (codes "ca-file") fs);
  cert_file = text_value (lookup (codes "tls-cert") fs);
  key_file = text_value (lookup (codes "tls-key") fs);
  tls_server = text_value (lookup (codes "tls-servername") fs);
  tls_insecure = bool_value (lookup (codes "tls-insecure") fs);
  interval = int_value (lookup (codes "interval") fs);
  nvidia_smi_path = text_value (lookup (codes "nvidia-smi") fs);
  device_model = text_value (lookup (codes "device-model") fs);
  net_interface = text_value (lookup (codes "net-interface") fs);
  area = text_value (lookup (codes "area") fs);
  log_level = text_value (lookup (codes "log-level") fs);
}

pub load_flags : Result FlagError FlagSet → Result ConfigError Config
unfolding bound validate
load_flags (err e) = err (flags e)
load_flags (ok fs) = validate (bound fs)

-- `Load`, in an environment, on a host, with the command line's arguments.
unfoldable pub load : Parsers → Env → Bytes → List Bytes → Result ConfigError Config
unfolding load_flags flag_set
load p e hostname args = load_flags (parse p (flag_set p e (short_hostname hostname)) args)
