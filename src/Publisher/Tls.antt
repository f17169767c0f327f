-- ===== src/Publisher/Tls.antt =====
-- internal/publisher/tls.go: the checks of the broker's address, and the transport's security. The URL
-- parser, the file system and the certificate loaders are parameters.
pub mod Options
pub mod Address
use sparkwrangler.Base.{
  ℕ, Bool, true, false, not, ◌&&◌, ◌||◌, Option, none, some, List, [], ◌∷◌, if◌then◌else◌, Bytes,
  codes, one_of, equal, Result, ok, err,
}
use sparkwrangler.Text.Search.{contains, to_lower}

pub record Url : Type 0 where
  pub scheme : Bytes
  pub host : Bytes

pub record Trust : Type 0 where
  -- `url.Parse`
  pub parse_url : Bytes → Option Url
  -- `os.ReadFile`
  pub read_file : Bytes → Option Bytes
  -- `AppendCertsFromPEM`
  pub holds_certificates : Bytes → Bool
  -- `tls.LoadX509KeyPair`: the pair that two files hold
  pub load_pair : Bytes → Bytes → Option Bytes

pub record TlsOptions : Type 0 where
  pub ca_file : Bytes
  pub cert_file : Bytes
  pub key_file : Bytes
  pub server_name : Bytes
  pub insecure : Bool

abbrev pub no_options : TlsOptions
no_options = record {
  ca_file = [];
  cert_file = [];
  key_file = [];
  server_name = [];
  insecure = false;
}

-- The fields of `tls.Config` that are set. The pool is the text that its certificates came from.
pub record TlsConfig : Type 0 where
  pub min_version : ℕ
  pub insecure_skip_verify : Bool
  pub server_name : Bytes
  pub root_cas : Option Bytes
  pub certificates : List Bytes

-- `tls.VersionTLS12`
abbrev pub version_tls12 : ℕ
version_tls12 = 0x0303

pub data UrlError : Type 0 where
  no_scheme : UrlError
  not_parsed : UrlError
  unsupported_scheme : Bytes → UrlError
  no_host : UrlError

pub data TlsError : Type 0 where
  plaintext_options : TlsError
  ca_unreadable : TlsError
  ca_empty : TlsError
  pair_unreadable : TlsError
  pair_incomplete : TlsError

abbrev pub tls_schemes : List Bytes
tls_schemes = codes "mqtts" ∷ codes "ssl" ∷ codes "tls" ∷ codes "wss" ∷ []

abbrev pub plain_schemes : List Bytes
plain_schemes = codes "mqtt" ∷ codes "tcp" ∷ codes "ws" ∷ codes "unix" ∷ []

is_empty : Bytes → Bool
is_empty [] = true
is_empty (c ∷ s) = false

url_is_tls : Option Url → Bool
url_is_tls none = false
url_is_tls (some u) = one_of (to_lower u.scheme) tls_schemes

-- `SchemeIsTLS`
unfoldable pub scheme_is_tls : Trust → Bytes → Bool
unfolding url_is_tls
scheme_is_tls t broker_url = url_is_tls (t.parse_url broker_url)

-- The two tests of a parsed address.
validate_url : Option Url → Result UrlError Url
unfolding is_empty
validate_url none = err not_parsed
validate_url (some u) =
    if one_of (to_lower u.scheme) tls_schemes || one_of (to_lower u.scheme) plain_schemes
    then (if not (equal u.scheme (codes "unix")) && is_empty u.host then err no_host else ok u)
    else err (unsupported_scheme u.scheme)

-- `ValidateBrokerURL`, which here returns the address that it accepts.
unfoldable pub validate_broker_url : Trust → Bytes → Result UrlError Url
unfolding validate_url
validate_broker_url t broker_url =
    if contains broker_url (codes "://")
    then validate_url (t.parse_url broker_url)
    else err no_scheme

-- `opts != (TLSOptions{})`, negated.
is_zero : TlsOptions → Bool
unfolding is_empty
is_zero o =
    is_empty o.ca_file
    && is_empty o.cert_file
    && is_empty o.key_file
    && is_empty o.server_name
    && not o.insecure

pool_of : Trust → Option Bytes → Result TlsError (Option Bytes)
pool_of t none = err ca_unreadable
pool_of t (some pem) = if t.holds_certificates pem then ok (some pem) else err ca_empty

-- The block behind `opts.CAFile != ""`.
roots : Trust → Bytes → Result TlsError (Option Bytes)
unfolding pool_of
roots t [] = ok none
roots t (c ∷ file) = pool_of t (t.read_file (c ∷ file))

pair_of : Option Bytes → Result TlsError (List Bytes)
pair_of none = err pair_unreadable
pair_of (some pair) = ok (pair ∷ [])

-- The `switch` over the certificate and the key.
client_pair : Trust → Bytes → Bytes → Result TlsError (List Bytes)
unfolding pair_of
client_pair t [] [] = ok []
client_pair t [] (k ∷ key) = err pair_incomplete
client_pair t (c ∷ cert) [] = err pair_incomplete
client_pair t (c ∷ cert) (k ∷ key) = pair_of (t.load_pair (c ∷ cert) (k ∷ key))

with_pair :
    TlsOptions → Option Bytes → Result TlsError (List Bytes) → Result TlsError (Option TlsConfig)
with_pair o pool (err e) = err e
with_pair o pool (ok certificates) = ok (
    some (record {
      min_version = version_tls12;
      insecure_skip_verify = o.insecure;
      server_name = o.server_name;
      root_cas = pool;
      certificates = certificates;
    }))

with_roots :
    Trust → TlsOptions → Result TlsError (Option Bytes) → Result TlsError (Option TlsConfig)
unfolding with_pair client_pair
with_roots t o (err e) = err e
with_roots t o (ok pool) = with_pair o pool (client_pair t o.cert_file o.key_file)

-- `buildTLSConfig`; a nil configuration is `none`.
unfoldable pub build_tls_config : Trust → Bytes → TlsOptions → Result TlsError (Option TlsConfig)
unfolding is_zero with_roots roots
build_tls_config t broker_url o =
    if scheme_is_tls t broker_url
    then with_roots t o (roots t o.ca_file)
    else (if is_zero o then ok none else err plaintext_options)
