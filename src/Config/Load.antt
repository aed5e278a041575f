-- ===== src/Config/Load.antt =====
-- Load of internal/config/config.go.
pub mod Sound
use traversal_connector.Common.{
  ℕ, Bool, true, false, not, ◌&&◌, ◌||◌, Option, none, some, List, [], ◌∷◌, any, ◌==◌,
  if◌then◌else◌, Text, codes, is_empty, reverse, is_some,
}
use traversal_connector.Common.Int.{ℤ, pos, ltb_ℤ}
use traversal_connector.Env.{
  Environment, Parsers, development, get_env_string, get_env_optional_string, get_env_int64,
  get_env_duration, get_env_bool, strict_int, strict_duration, Reader, has_errors,
}
use traversal_connector.Config.{
  Config, Library, Fault, Loaded, loaded, fault, ◌>>=◌, ◌>>◌, refuse_if, required,
  default_body_size_mb, default_decoded_body_size_mb, default_max_concurrent_redactions,
  default_uncovered_stream_max_lifetime, max_concurrent_redactions_limit, default_request_timeout,
  default_config_refresh_interval, default_redaction_reload_interval, env_file_unread,
  env_name_missing, url_missing, connector_id_missing, proxy_with_connect_to, two_upstream_cas,
  upstream_ca_unread, config_enabled_not_bool, config_endpoint_set, reload_interval_bad,
  settings_invalid,
}
use traversal_connector.Config.Checks.{
  validate_connect_to, validate_remote_config, validate_controller_connection,
  apply_telemetry_policy, decode_certificate,
}

-- strings.Trim of both quotes.
abbrev pub is_quote : ℕ → Bool
is_quote c = c == b'"' || c == 39

unfoldable pub drop_quotes : Text → Text
drop_quotes [] = []
drop_quotes (c ∷ s) = if is_quote c then drop_quotes s else c ∷ s

unfoldable pub trim_quotes : Text → Text
unfolding drop_quotes
trim_quotes s = reverse (drop_quotes (reverse (drop_quotes s)))

module _ (lib : Library) where
  open lib use {parsers, read_file, load_file, load_default}
  open parsers use {parse_bool, parse_duration}

  abbrev pub with_env_file : Environment → Option Text → Loaded Environment
  with_env_file env none = loaded env
  with_env_file env (some path) = required (load_file path env) env_file_unread

  abbrev pub load_environment : Environment → Loaded Environment
  load_environment env = do
    e ← with_env_file env (get_env_optional_string env (codes "ENV_FILE"))
    loaded (load_default e)

  abbrev pub upstream_ca : Option Text → Option Text → Loaded (Option Text)
  upstream_ca inline none = loaded (decode_certificate lib inline)
  upstream_ca none (some path) =
      required (read_file path) upstream_ca_unread >>= λ ca. loaded (some ca)
  upstream_ca (some inline) (some path) = fault two_upstream_cas

  abbrev pub load_upstream_tls_ca : Environment → Loaded (Option Text)
  load_upstream_tls_ca env =
      upstream_ca (get_env_optional_string env (codes "UPSTREAM_TLS_CA_BASE64"))
        (get_env_optional_string env (codes "UPSTREAM_TLS_CA_FILE"))

  abbrev pub load_config_enabled : Text → Loaded Bool
  load_config_enabled raw =
      if is_empty raw then loaded false else required (parse_bool raw) config_enabled_not_bool

  -- The three connection settings that are read before the others.
  abbrev pub disables : Environment → Bool
  disables env = get_env_bool parsers env (codes "TRAVERSAL_DISABLE_TELEMETRY") false

  abbrev pub controller_connect_to : Environment → Text
  controller_connect_to env = get_env_string env (codes "TRAVERSAL_CONTROLLER_CONNECT_TO") []

  abbrev pub exporter_connect_to : Environment → Text
  exporter_connect_to env =
      if disables env then [] else get_env_string env (codes "OTEL_EXPORTER_OTLP_CONNECT_TO") []

  abbrev pub strict_concurrent : Environment → Reader × ℤ
  strict_concurrent env =
      strict_int parsers env [] (codes "TRAVERSAL_REDACTION_MAX_CONCURRENT")
        default_max_concurrent_redactions max_concurrent_redactions_limit

  abbrev pub strict_lifetime : Environment → Reader × ℤ
  strict_lifetime env =
      strict_duration parsers env (strict_concurrent env).0
        (codes "TRAVERSAL_UNCOVERED_STREAM_MAX_LIFETIME") default_uncovered_stream_max_lifetime

  -- The composite literal.
  unfoldable pub settings : Environment → Text → Text → Text → Option Text → Bool → Config
  settings env name url id ca enabled = record {
    http_port = get_env_string env (codes "HTTP_PORT") (codes "8080");
    traversal_controller_url = url;
    traversal_controller_connect_to = controller_connect_to env;
    env_name = name;
    env_level = get_env_string env (codes "ENV_LEVEL") development;
    request_timeout =
        get_env_duration parsers env (codes "REQUEST_TIMEOUT") default_request_timeout;
    max_request_body_size_mb =
        get_env_int64 parsers env (codes "MAX_REQUEST_BODY_SIZE_MB") default_body_size_mb;
    max_response_body_size_mb =
        get_env_int64 parsers env (codes "MAX_RESPONSE_BODY_SIZE_MB") default_body_size_mb;
    max_decoded_response_body_size_mb =
        get_env_int64 parsers env (codes "MAX_DECODED_RESPONSE_BODY_SIZE_MB")
          default_decoded_body_size_mb;
    max_concurrent_redactions = (strict_concurrent env).1;
    uncovered_stream_max_lifetime = (strict_lifetime env).1;
    egress_proxy_url = get_env_optional_string env (codes "EGRESS_PROXY_URL");
    tls_cert = decode_certificate lib (get_env_optional_string env (codes "TLS_CERT_BASE64"));
    tls_key = decode_certificate lib (get_env_optional_string env (codes "TLS_KEY_BASE64"));
    tls_ca = decode_certificate lib (get_env_optional_string env (codes "TLS_CA_BASE64"));
    connector_id = trim_quotes id;
    otel_service_name =
        get_env_string env (codes "OTEL_SERVICE_NAME") (codes "traversal-connector");
    otlp_metrics_endpoint = get_env_string env (codes "OTEL_EXPORTER_OTLP_METRICS_ENDPOINT") [];
    otlp_traces_endpoint = get_env_string env (codes "OTEL_EXPORTER_OTLP_TRACES_ENDPOINT") [];
    otlp_logs_endpoint = get_env_string env (codes "OTEL_EXPORTER_OTLP_LOGS_ENDPOINT") [];
    otlp_protocol = get_env_string env (codes "OTEL_EXPORTER_OTLP_PROTOCOL") [];
    otlp_connect_to = exporter_connect_to env;
    disable_telemetry = disables env;
    upstream_tls_verify = get_env_bool parsers env (codes "UPSTREAM_TLS_VERIFY") true;
    upstream_tls_ca = ca;
    config_enabled = enabled;
    config_refresh_interval =
        get_env_duration parsers env (codes "TRAVERSAL_CONFIG_REFRESH_INTERVAL")
          default_config_refresh_interval;
    redaction_rules_file = get_env_optional_string env (codes "REDACTION_RULES_FILE");
    redaction_reload_interval = default_redaction_reload_interval;
  }

  abbrev pub reload_interval : Config → Text → Loaded Config
  reload_interval cfg raw =
      if not (is_some cfg.redaction_rules_file) || is_empty raw
      then loaded cfg
      else let (interval, fine) = parse_duration raw in
        refuse_if (not fine || not (ltb_ℤ (pos 0) interval)) reload_interval_bad
        >> loaded (record cfg { redaction_reload_interval = interval })

  -- Load, from where the settings are read.
  unfoldable pub check_settings : Environment → Config → Loaded Config
  check_settings env cfg = do
    refuse_if (has_errors (strict_lifetime env).0) (settings_invalid (strict_lifetime env).0)
    refuse_if (not (is_empty (env (codes "TRAVERSAL_CONFIG_ENDPOINT")))) config_endpoint_set
    timed ← reload_interval cfg (env (codes "REDACTION_RELOAD_INTERVAL"))
    validate_remote_config lib timed
    validate_controller_connection lib timed
    apply_telemetry_policy lib timed

  unfoldable pub load : Environment → Loaded Config
  load start = do
    env ← load_environment start
    name ← required (get_env_optional_string env (codes "ENV_NAME")) env_name_missing
    url ← required (get_env_optional_string env (codes "TRAVERSAL_CONTROLLER_URL")) url_missing
    id ←
        required (get_env_optional_string env (codes "TRAVERSAL_CONNECTOR_ID")) connector_id_missing
    refuse_if
        (not (is_empty (get_env_string env (codes "EGRESS_PROXY_URL") []))
          && (not (is_empty (controller_connect_to env))
              || not (is_empty (exporter_connect_to env))))
        proxy_with_connect_to
    validate_connect_to lib (codes "TRAVERSAL_CONTROLLER_CONNECT_TO") (controller_connect_to env)
    validate_connect_to lib (codes "OTEL_EXPORTER_OTLP_CONNECT_TO") (exporter_connect_to env)
    ca ← load_upstream_tls_ca env
    enabled ← load_config_enabled (env (codes "TRAVERSAL_CONFIG_ENABLED"))
    check_settings env (settings env name url id ca enabled)
