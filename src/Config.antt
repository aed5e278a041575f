-- ===== src/Config.antt =====
-- internal/config/config.go and internal/config/remote.go: the configuration of a connector.
pub mod Checks
pub mod Load
mod Tests
use traversal_connector.Common.{
  ℕ, ◌*◌, ◌≡◌, refl, Bool, true, false, Option, none, some, List, Text, codes, if◌then◌else◌,
}
use traversal_connector.Common.Int.{ℤ, pos}
use traversal_connector.Env.{Parsers}

pub record Config : Type 0 where
  pub http_port : Text
  pub traversal_controller_url : Text
  pub traversal_controller_connect_to : Text
  pub env_name : Text
  pub env_level : Text
  pub request_timeout : ℤ
  pub max_request_body_size_mb : ℤ
  pub max_response_body_size_mb : ℤ
  pub max_decoded_response_body_size_mb : ℤ
  pub max_concurrent_redactions : ℤ
  pub uncovered_stream_max_lifetime : ℤ
  pub egress_proxy_url : Option Text
  pub tls_cert : Option Text
  pub tls_key : Option Text
  pub tls_ca : Option Text
  pub connector_id : Text
  pub otel_service_name : Text
  pub otlp_metrics_endpoint : Text
  pub otlp_traces_endpoint : Text
  pub otlp_logs_endpoint : Text
  pub otlp_protocol : Text
  pub otlp_connect_to : Text
  pub disable_telemetry : Bool
  pub upstream_tls_verify : Bool
  pub upstream_tls_ca : Option Text
  pub config_enabled : Bool
  pub config_refresh_interval : ℤ
  pub redaction_rules_file : Option Text
  pub redaction_reload_interval : ℤ

abbrev pub second : ℕ
second = 1_000_000_000

abbrev pub minute : ℕ
minute = 60 * second

abbrev pub default_body_size_mb : ℤ
default_body_size_mb = pos 32

abbrev pub default_decoded_body_size_mb : ℤ
default_decoded_body_size_mb = pos 256

abbrev pub default_max_concurrent_redactions : ℤ
default_max_concurrent_redactions = pos 8

abbrev pub default_uncovered_stream_max_lifetime : ℤ
default_uncovered_stream_max_lifetime = pos (15 * minute)

abbrev pub max_concurrent_redactions_limit : ℤ
max_concurrent_redactions_limit = pos 1024

abbrev pub pem_prefix : Text
pem_prefix = codes "-----BEGIN"

abbrev pub max_tcp_port : ℤ
max_tcp_port = pos 65535

abbrev pub default_request_timeout : ℤ
default_request_timeout = pos (60 * second)

abbrev pub default_config_refresh_interval : ℤ
default_config_refresh_interval = pos (30 * second)

abbrev pub default_redaction_reload_interval : ℤ
default_redaction_reload_interval = pos (10 * second)

-- Why a configuration is refused; a Text is the variable that an error names.
pub data Fault : Type 0 where
  env_file_unread env_name_missing url_missing connector_id_missing : Fault
  proxy_with_connect_to two_upstream_cas upstream_ca_unread : Fault
  config_enabled_not_bool config_endpoint_set reload_interval_bad : Fault
  refresh_interval_bad connector_id_not_canonical : Fault
  url_malformed certificate_missing certificate_bad http_outside_development : Fault
  scheme_unsupported : Text → Fault
  settings_invalid : List Text → Fault
  connect_to_bad endpoint_missing endpoint_malformed endpoint_no_host : Text → Fault
  endpoint_port endpoint_cleartext : Text → Fault

-- A value, or the error that is returned in its place.
pub data Loaded (A : Type 0) : Type 0 where
  fault : Fault → Loaded A
  loaded : A → Loaded A

infixl 5 ◌>>=◌ ◌>>◌
abbrev pub ◌>>=◌ : {A B : Type 0} → Loaded A → (A → Loaded B) → Loaded B
fault f >>= next = fault f
loaded a >>= next = next a

abbrev pub ◌>>◌ : {B : Type 0} → Loaded (Unit {0}) → Loaded B → Loaded B
first >> next = first >>= λ _. next

abbrev pub refuse_if : Bool → Fault → Loaded (Unit {0})
refuse_if true f = fault f
refuse_if false f = loaded tt

abbrev pub required : {A : Type 0} → Option A → Fault → Loaded A
required none f = fault f
required (some a) f = loaded a

pub >>=-eq-loaded :
    {A B : Type 0} (first : Loaded A) (next : A → Loaded B) {b : B}
    → (first >>= next) ≡ loaded b
    → (a : A) × (first ≡ loaded a) × (next a ≡ loaded b)
>>=-eq-loaded (fault f) next h = cc
>>=-eq-loaded (loaded a) next h = (a, refl, h)

-- The same, for a longer chain.
pub after {ℓ} :
    {A B : Type 0} {Q : Type ℓ} (first : Loaded A) (next : A → Loaded B) {b : B}
    → (first >>= next) ≡ loaded b
    → ((a : A) → first ≡ loaded a → next a ≡ loaded b → Q)
    → Q
after first next h q = let (a, e, e') = >>=-eq-loaded first next h in q a e e'

pub refuse_if-loaded : (b : Bool) (f : Fault) {u : Unit} → refuse_if b f ≡ loaded u → b ≡ false
refuse_if-loaded true f h = cc
refuse_if-loaded false f h = refl

pub required-loaded :
    {A : Type 0} (o : Option A) (f : Fault) {a : A} → required o f ≡ loaded a → o ≡ some a
required-loaded none f h = cc
required-loaded (some a) f h = cc

-- A url.URL, as far as the configuration reads it.
pub record Url : Type 0 where
  pub scheme : Text
  pub host : Text
  pub hostname : Text
  pub port : Text

-- What the configuration takes of the libraries: net/url, net.SplitHostPort, strings, net.ParseIP
-- with IsLoopback, tls.X509KeyPair, base64, uuid, os.ReadFile and godotenv, with which `load_file`
-- adds the variables of a file to an environment, and `load_default` those of ./.env if it is there.
pub record Library : Type 0 where
  pub parsers : Parsers
  pub parse_url : Text → Option Url
  pub split_host_port : Text → Option (Text × Text)
  pub trim_space : Text → Text
  pub equal_fold : Text → Text → Bool
  pub is_loopback_ip : Text → Bool
  pub key_pair : Text → Text → Bool
  pub base64 : Text → Option Text
  pub uuid : Text → Option Text
  pub read_file : Text → Option Text
  pub load_file : Text → (Text → Text) → Option (Text → Text)
  pub load_default : (Text → Text) → Text → Text
