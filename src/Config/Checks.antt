-- ===== src/Config/Checks.antt =====
-- The checks of internal/config/config.go and internal/config/remote.go.
pub mod Sound
use traversal_connector.Common.{
  ℕ, ◌*◌, Bool, true, false, not, ◌&&◌, ◌||◌, Option, none, some, List, [], ◌∷◌, ◌++◌, any, ◌==◌,
  if◌then◌else◌, Text, codes, text_eq, is_empty, has_prefix, has_suffix, reverse, is_some, http,
  https,
}
use traversal_connector.Common.Int.{ℤ, pos, ltb_ℤ}
use traversal_connector.Env.{Parsers, is_dev}
use traversal_connector.Hostname.{trim_dot}
use traversal_connector.RawPipe.Preface.{is_connector_id}
use traversal_connector.Config.{
  Config, Library, Fault, Loaded, loaded, fault, ◌>>=◌, ◌>>◌, refuse_if, required, pem_prefix,
  max_tcp_port, minute, Url, refresh_interval_bad, connector_id_not_canonical, url_malformed,
  certificate_missing, certificate_bad, http_outside_development, scheme_unsupported,
  connect_to_bad, endpoint_missing, endpoint_malformed, endpoint_no_host, endpoint_port,
  endpoint_cleartext,
}

-- strings.Contains.
unfoldable pub contains_text : Text → Text → Bool
contains_text [] p = is_empty p
contains_text (c ∷ s) p = has_prefix (c ∷ s) p || contains_text s p

module _ (lib : Library) where
  open lib use {
    parsers, parse_url, split_host_port, trim_space, equal_fold, is_loopback_ip, key_pair, base64,
    uuid,
  }
  open parsers use {atoi}

  abbrev pub bad_port : Text → Bool
  bad_port port = let (n, fine) = atoi port in not fine || ltb_ℤ n (pos 1) || ltb_ℤ max_tcp_port n

  abbrev pub bad_destination : Text → Text → Bool
  bad_destination host port =
      is_empty host
      || not (text_eq (trim_space host) host)
      || is_empty port
      || not (text_eq (trim_space port) port)
      || any (λ c. any (λ d. c == d) (codes "/?#@")) host
      || contains_text host (codes "://")
      || bad_port port

  unfoldable pub validate_connect_to : Text → Text → Loaded (Unit {0})
  validate_connect_to env_var address =
      if is_empty address then loaded tt else elim (split_host_port address) [
        | none ↦ fault (connect_to_bad env_var)
        | some (host, port) ↦ refuse_if (bad_destination host port) (connect_to_bad env_var)
      ]

  unfoldable pub is_loopback_host : Text → Bool
  is_loopback_host host = equal_fold (trim_dot host) (codes "localhost") || is_loopback_ip host

  unfoldable pub validate_endpoint : Text → Text → Loaded (Unit {0})
  validate_endpoint env_var value = do
    refuse_if (is_empty value) (endpoint_missing env_var)
    u ← required (parse_url value) (endpoint_malformed env_var)
    refuse_if (is_empty u.hostname) (endpoint_no_host env_var)
    refuse_if (not (is_empty u.port) && bad_port u.port) (endpoint_port env_var)
    refuse_if
        (not (text_eq u.scheme https) && not (text_eq u.scheme http && is_loopback_host u.hostname))
        (endpoint_cleartext env_var)

  abbrev pub silenced : Config → Config
  silenced cfg = record cfg {
    otlp_metrics_endpoint = [];
    otlp_traces_endpoint = [];
    otlp_logs_endpoint = [];
    otlp_connect_to = [];
  }

  -- The loop over the three endpoints.
  abbrev pub validate_endpoints : Config → Loaded Config
  validate_endpoints cfg = do
    validate_endpoint (codes "OTEL_EXPORTER_OTLP_METRICS_ENDPOINT") cfg.otlp_metrics_endpoint
    validate_endpoint (codes "OTEL_EXPORTER_OTLP_TRACES_ENDPOINT") cfg.otlp_traces_endpoint
    validate_endpoint (codes "OTEL_EXPORTER_OTLP_LOGS_ENDPOINT") cfg.otlp_logs_endpoint
    loaded cfg

  unfoldable pub apply_telemetry_policy : Config → Loaded Config
  apply_telemetry_policy cfg =
      if cfg.disable_telemetry
      then loaded (silenced cfg)
      else if is_dev cfg.env_level
      then loaded cfg
      else validate_endpoints cfg

  abbrev pub check_key_pair : Option Text → Option Text → Loaded (Unit {0})
  check_key_pair (some cert) (some key) = refuse_if (not (key_pair cert key)) certificate_bad
  check_key_pair _ _ = fault certificate_missing

  abbrev pub check_scheme : Config → Text → Loaded (Unit {0})
  check_scheme cfg scheme =
      if text_eq scheme https
      then check_key_pair cfg.tls_cert cfg.tls_key
      else if text_eq scheme http
      then refuse_if (not (is_dev cfg.env_level)) http_outside_development
      else fault (scheme_unsupported scheme)

  unfoldable pub validate_controller_connection : Config → Loaded (Unit {0})
  validate_controller_connection cfg = do
    u ← required (parse_url cfg.traversal_controller_url) url_malformed
    check_scheme cfg u.scheme

  -- remote.go.
  abbrev pub max_refresh_interval : ℤ
  max_refresh_interval = pos (24 * 60 * minute)

  unfoldable pub validate_remote_config : Config → Loaded (Unit {0})
  validate_remote_config cfg =
      if not cfg.config_enabled
      then loaded tt
      else refuse_if
          (not (ltb_ℤ (pos 0) cfg.config_refresh_interval)
            || ltb_ℤ max_refresh_interval cfg.config_refresh_interval)
          refresh_interval_bad
        >> refuse_if (not (is_connector_id uuid cfg.connector_id)) connector_id_not_canonical

  unfoldable pub decode_pem : Text → Text
  decode_pem v =
      if has_prefix v pem_prefix then v else elim (base64 v) [ none ↦ v | some decoded ↦ decoded ]

  abbrev pub decode_certificate : Option Text → Option Text
  decode_certificate none = none
  decode_certificate (some encoded) = some (decode_pem encoded)
