-- ===== src/Config/Tests.antt =====
-- A connector in production, at a sample of the libraries.
use traversal_connector.Common.{
  ◌≡◌, refl, true, false, none, some, List, [], ◌∷◌, if◌then◌else◌, Text, codes, text_eq, https,
}
use traversal_connector.Common.Int.{pos}
use traversal_connector.Env.{Environment, get_env_bool, strict_int, strict_duration}
use traversal_connector.Config.{Config, Library, Url, loaded}
use traversal_connector.Config.Checks.{
  validate_connect_to, validate_endpoint, validate_controller_connection, validate_remote_config,
  apply_telemetry_policy,
}
use traversal_connector.Config.Checks.Sound.{Exports}
use traversal_connector.Config.Load.{load, settings, check_settings, trim_quotes}
use traversal_connector.Config.Load.Sound.{IsSafe, load_sound}

abbrev to_controller : Url
to_controller = record { scheme = https; host = codes "edge"; hostname = codes "edge"; port = [] }

abbrev sample_library : Library
sample_library = record {
  parsers = record {
    parse_int64 = λ s. none;
    parse_bool = λ s. none;
    atoi = λ s. (pos 0, false);
    parse_duration = λ s. (pos 0, false);
  };
  parse_url = λ s. some to_controller;
  split_host_port = λ s. none;
  trim_space = λ s. s;
  equal_fold = text_eq;
  is_loopback_ip = λ s. false;
  key_pair = λ cert key. true;
  base64 = some;
  uuid = some;
  read_file = λ path. none;
  load_file = λ path env. none;
  load_default = λ env. env;
}

abbrev get : List (Text × Text) → Environment
get [] key = []
get ((k, v) ∷ vars) key = if text_eq k key then v else get vars key

abbrev in_production : Environment
in_production = get (
    (codes "ENV_NAME", codes "acme")
    ∷ (codes "ENV_LEVEL", codes "production")
    ∷ (codes "TRAVERSAL_CONTROLLER_URL", codes "https://edge")
    ∷ (codes "TRAVERSAL_CONNECTOR_ID", codes "\"c1\"")
    ∷ (codes "TLS_CERT_BASE64", codes "cert")
    ∷ (codes "TLS_KEY_BASE64", codes "key")
    ∷ (codes "OTEL_EXPORTER_OTLP_METRICS_ENDPOINT", codes "https://m")
    ∷ (codes "OTEL_EXPORTER_OTLP_TRACES_ENDPOINT", codes "https://t")
    ∷ (codes "OTEL_EXPORTER_OTLP_LOGS_ENDPOINT", codes "https://l")
    ∷ [])

abbrev production_config : Config
production_config =
    settings sample_library in_production (codes "acme") (codes "https://edge") (codes "\"c1\"")
      none false

production_test : load sample_library in_production ≡ loaded production_config
unfolding load text_eq validate_connect_to get_env_bool check_settings strict_duration strict_int
    settings validate_remote_config validate_controller_connection apply_telemetry_policy
    validate_endpoint
production_test = refl

quotes_test : production_config.connector_id ≡ codes "c1"
unfolding settings trim_quotes
quotes_test = refl

load_sound_example :
    IsSafe sample_library production_config × Exports sample_library production_config
load_sound_example = load_sound sample_library in_production production_config production_test
