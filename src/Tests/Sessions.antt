-- ===== src/Tests/Sessions.antt =====
-- The settings and the transport.
use sparkwrangler.Base.Int.{pos, ◌*ℤ◌}
use sparkwrangler.Base.{
  arith, true, false, none, some, List, [], ◌∷◌, ◌≡◌, ◌↔◌, refl, Bytes, codes, ok, All, equal,
  if◌then◌else◌, one_of, lookup, insert,
}
use sparkwrangler.Config.Flags.Assignments.{parse-assign_all, assign_all, last_assigned}
use sparkwrangler.Config.Flags.Forms.{Form, joined, separate, alone, Assignment, IsTaken, print_all}
use sparkwrangler.Config.Flags.{
  Parsers, FlagSet, Value, text, integer, boolean, duration, set_value, parse, parse_bool,
}
use sparkwrangler.Config.Load.Valid.{IsValid, load-IsValid}
use sparkwrangler.Config.Load.Settings.{settings, stated}
use sparkwrangler.Config.Load.Sources.{load-last_assigned}
use sparkwrangler.Config.Load.{Config, load, flag_set, short_hostname, bound}
use sparkwrangler.Discovery.Device.{Device}
use sparkwrangler.Main.Setup.{node_device, node_options}
use sparkwrangler.Publisher.Mqtt.Session.{IsSession, new_mqtt-IsSession}
use sparkwrangler.Publisher.Mqtt.Connect.{MqttOptions, ClientOptions, new_topics, new_mqtt}
use sparkwrangler.Publisher.Mqtt.{Token, completed, Delivery, announce, will}
use sparkwrangler.Publisher.Tls.Address.{IsAddress, validate_broker_url_iff}
use sparkwrangler.Publisher.Tls.Options.{
  Carries, build_tls_config-plaintext, build_tls_config-Carries,
}
use sparkwrangler.Publisher.Tls.{
  Trust, TlsOptions, TlsConfig, no_options, scheme_is_tls, build_tls_config, validate_broker_url,
}
use sparkwrangler.Sdnotify.{Env}
use sparkwrangler.Tests.Numbers.{Number, number_float}
use sparkwrangler.Text.Decimal.{parse_int64}
use sparkwrangler.Text.Search.{contains, to_lower}

abbrev pub parsers : Parsers
parsers = record { duration = parse_int64; int_any_base = parse_int64 }

abbrev pub environment : Env
environment name = if equal name (codes "SPARKWRANGLER_NODE_ID") then some (codes "env") else none

abbrev written : Form → Bytes → Bytes → Value → Assignment
written f name s v = record { name = name; form = f; spelled = s; value = v }

-- The identifier twice, a worker's empty address, and a flag of each other type.
abbrev pub assignments : List Assignment
assignments =
    written joined (codes "node-id") (codes "a") (text (codes "a"))
    ∷ written joined (codes "vllm-url") [] (text [])
    ∷ written joined (codes "broker") (codes "mqtts://b") (text (codes "mqtts://b"))
    ∷ written alone (codes "tls-insecure") (codes "true") (boolean true)
    ∷ written separate (codes "interval") (codes "2000000000") (duration (pos 2_000_000_000))
    ∷ written joined (codes "qos") (codes "2") (integer (pos 2))
    ∷ written separate (codes "node-id") (codes "b") (text (codes "b"))
    ∷ []

abbrev flags : FlagSet
flags = flag_set parsers environment (short_hostname (codes "spark.lan"))

abbrev old_interval : Value
old_interval = duration (pos 15_000_000_000)

assignments-valid : All (IsTaken parsers flags) assignments
unfolding flag_set lookup equal set_value parse_int64 ◌*ℤ◌ parse_bool one_of
assignments-valid = (
  record {
    named = ground arith;
    old = text (codes "env");
    defined = refl;
    takes = tt;
    reads = refl;
  },
  (
    record {
      named = ground arith;
      old = text (codes "http://localhost:8000");
      defined = refl;
      takes = tt;
      reads = refl;
    },
    (
      record {
        named = ground arith;
        old = text (codes "tcp://localhost:1883");
        defined = refl;
        takes = tt;
        reads = refl;
      },
      (
        record {
          named = ground arith;
          old = boolean false;
          defined = refl;
          takes = refl;
          reads = refl;
        },
        (
          record {
            named = ground arith;
            old = old_interval;
            defined = refl;
            takes = tt;
            reads = refl;
          },
          (
            record {
              named = ground arith;
              old = integer (pos 1);
              defined = refl;
              takes = tt;
              reads = refl;
            },
            (
              record {
                named = ground arith;
                old = text (codes "env");
                defined = refl;
                takes = tt;
                reads = refl;
              },
              tt,
            ),
          ),
        ),
      ),
    ),
  ),
)

abbrev pub loaded : Config
loaded = bound (assign_all flags assignments)

pub loaded_ok : load parsers environment (codes "spark.lan") (print_all assignments) ≡ ok loaded
unfolding load parse insert parse_int64 ◌*ℤ◌ parse_bool one_of
loaded_ok = refl

assignments_parsed : parse parsers flags (print_all assignments) ≡ ok (assign_all flags assignments)
assignments_parsed = parse-assign_all parsers flags assignments assignments-valid

load-IsValid_example : IsValid loaded
load-IsValid_example =
    load-IsValid parsers environment (codes "spark.lan") (print_all assignments) loaded_ok

load-last_assigned_example :
    All
      (λ s.
        some s.value
        ≡ last_assigned s.flag
            (some (stated parsers environment s.variable s.fallback))
            assignments)
      (settings (short_hostname (codes "spark.lan")) loaded)
load-last_assigned_example =
    load-last_assigned parsers environment (codes "spark.lan") assignments assignments-valid
      loaded_ok

-- A broker that is reached over TLS under one scheme and in plaintext under another.
abbrev pub trust : Trust
trust = record {
  parse_url = λ u. some (record {
    scheme = if equal u (codes "mqtts://b") then codes "mqtts" else codes "tcp";
    host = codes "b";
  });
  read_file = λ f. some (codes "pem");
  holds_certificates = λ pem. true;
  load_pair = λ cert key. none;
}

abbrev authority : TlsOptions
authority = record no_options { ca_file = codes "ca.pem" }

abbrev secure_config : TlsConfig
secure_config = record {
  min_version = 0x0303;
  insecure_skip_verify = false;
  server_name = [];
  root_cas = some (codes "pem");
  certificates = [];
}

build_tls_config-plaintext_example :
    (build_tls_config trust (codes "tcp://b") authority ≡ ok none) ↔ (authority ≡ no_options)
build_tls_config-plaintext_example =
    build_tls_config-plaintext trust (codes "tcp://b") authority
      (unfold scheme_is_tls to_lower equal one_of in refl)

mqtts_is_tls : scheme_is_tls trust (codes "mqtts://b") ≡ true
unfolding scheme_is_tls to_lower equal one_of
mqtts_is_tls = refl

secured : build_tls_config trust (codes "mqtts://b") authority ≡ ok (some secure_config)
unfolding build_tls_config scheme_is_tls to_lower equal one_of
secured = refl

build_tls_config-Carries_example :
    (d : TlsConfig) × (some secure_config ≡ some d) × Carries trust authority d
build_tls_config-Carries_example =
    build_tls_config-Carries trust (codes "mqtts://b") authority mqtts_is_tls secured

abbrev pub options : MqttOptions
options = record (node_options loaded) { broker_url = codes "mqtts://b"; tls = authority }

abbrev pub accept : ClientOptions Number → Token
accept o = completed

abbrev pub client_options : ClientOptions Number
client_options = record {
  broker = codes "mqtts://b";
  client_id = codes "sparkwrangler-b";
  username = [];
  password = [];
  clean_session = false;
  tls_config = some secure_config;
  will = will (new_topics options);
}

pub connected : new_mqtt trust options accept ≡ ok (new_topics options, client_options)
unfolding new_mqtt build_tls_config validate_broker_url scheme_is_tls to_lower equal one_of contains
    node_options bound lookup insert flag_set
connected = refl

new_mqtt-IsSession_example : IsSession trust options accept (new_topics options) client_options
new_mqtt-IsSession_example = new_mqtt-IsSession trust options accept connected

abbrev pub deliver : Delivery Number
deliver m = completed

abbrev pub device : Device
device = node_device loaded []

pub announced : (announce deliver device (new_topics options)).error ≡ none
unfolding announce
announced = refl

validate_broker_url_iff_example :
    (validate_broker_url trust (codes "mqtts://b")
      ≡ ok (record { scheme = codes "mqtts"; host = codes "b" }))
    ↔ IsAddress trust (codes "mqtts://b") (record { scheme = codes "mqtts"; host = codes "b" })
validate_broker_url_iff_example =
    validate_broker_url_iff trust (codes "mqtts://b")
      (record { scheme = codes "mqtts"; host = codes "b" })

plain_accepted :
    validate_broker_url trust (codes "tcp://b")
    ≡ ok (record { scheme = codes "tcp"; host = codes "b" })
unfolding validate_broker_url contains to_lower equal one_of
plain_accepted = refl
