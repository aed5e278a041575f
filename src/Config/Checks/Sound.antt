-- ===== src/Config/Checks/Sound.antt =====
-- What the checks establish.
use traversal_connector.Common.{
  any, ◌==◌, Option-cases, ◌⊎◌, http, https, ◌≡◌, refl, subst, ◌⊎◌, inl, inr, true, false, not,
  ◌&&◌, ◌||◌, Option, none, some, [], ◌∷◌, arith, Text, codes, text_eq, text_eq_iff, is_empty,
  Bool-cases,
}
use traversal_connector.Common.Int.{pos, ◌≤ℤ◌, ◌<ℤ◌, ltb_ℤ}
use traversal_connector.Env.{is_dev}
use traversal_connector.RawPipe.Preface.{is_connector_id}
use traversal_connector.Config.{
  connect_to_bad, Config, Library, loaded, refuse_if, required, >>=-eq-loaded, refuse_if-loaded,
  required-loaded, Url, refresh_interval_bad, connector_id_not_canonical, url_malformed,
  certificate_bad, endpoint_missing, endpoint_malformed, endpoint_no_host, endpoint_port,
  endpoint_cleartext,
}
use traversal_connector.Config.Checks.{
  validate_connect_to, bad_destination, bad_port, is_loopback_host, validate_endpoint,
  apply_telemetry_policy, silenced, validate_endpoints, check_key_pair,
  validate_controller_connection, max_refresh_interval, validate_remote_config,
}

pub is_empty_nil : (s : Text) → is_empty s ≡ true → s ≡ []
is_empty_nil [] h = refl
is_empty_nil (c ∷ s) h = cc

module _ (lib : Library) where
  -- An endpoint with a host and a port that can be listened on, over TLS or on loopback.
  pub record IsPrivate (value : Text) : Type 0 where
    pub url : Url
    pub parsed : lib.parse_url value ≡ some url
    pub hosted : is_empty url.hostname ≡ false
    pub ported : (url.port ≡ []) ⊎ (bad_port lib url.port ≡ false)
    pub covered :
        (url.scheme ≡ https) ⊎ ((url.scheme ≡ http) × (is_loopback_host lib url.hostname ≡ true))

  pub validate_endpoint-IsPrivate :
      (env_var value : Text) → validate_endpoint lib env_var value ≡ loaded tt → IsPrivate value
  unfolding validate_endpoint
  validate_endpoint-IsPrivate env_var value e =
      let (_, _, e₁) = >>=-eq-loaded (refuse_if (is_empty value) (endpoint_missing env_var)) _ e in
      let (u, p₂, e₂) =
        >>=-eq-loaded (required (lib.parse_url value) (endpoint_malformed env_var)) _ e₁ in
      let (_, p₃, e₃) =
        >>=-eq-loaded (refuse_if (is_empty u.hostname) (endpoint_no_host env_var)) _ e₂ in
      let (_, p₄, e₄) =
        >>=-eq-loaded
          (refuse_if (not (is_empty u.port) && bad_port lib u.port) (endpoint_port env_var)) _ e₃ in
      let port =
        refuse_if-loaded (not (is_empty u.port) && bad_port lib u.port) (endpoint_port env_var)
          p₄ in
      let clear =
        not (text_eq u.scheme https)
        && not (text_eq u.scheme http && is_loopback_host lib u.hostname) in
      let scheme = refuse_if-loaded clear (endpoint_cleartext env_var) e₄ in
      record {
        url = u;
        parsed = required-loaded (lib.parse_url value) (endpoint_malformed env_var) p₂;
        hosted = refuse_if-loaded (is_empty u.hostname) (endpoint_no_host env_var) p₃;
        ported = ground (arith, port, is_empty_nil u.port);
        covered = ground (arith, scheme, text_eq_iff u.scheme https, text_eq_iff u.scheme http);
      }

  validate_endpoints-IsPrivate :
      (cfg out : Config)
      → validate_endpoints lib cfg ≡ loaded out
      → (cfg ≡ out)
        × IsPrivate cfg.otlp_metrics_endpoint
        × IsPrivate cfg.otlp_traces_endpoint
        × IsPrivate cfg.otlp_logs_endpoint
  validate_endpoints-IsPrivate cfg out e =
      let metrics = codes "OTEL_EXPORTER_OTLP_METRICS_ENDPOINT" in
      let traces = codes "OTEL_EXPORTER_OTLP_TRACES_ENDPOINT" in
      let logs = codes "OTEL_EXPORTER_OTLP_LOGS_ENDPOINT" in
      let (_, p₁, e₁) =
        >>=-eq-loaded (validate_endpoint lib metrics cfg.otlp_metrics_endpoint) _ e in
      let (_, p₂, e₂) =
        >>=-eq-loaded (validate_endpoint lib traces cfg.otlp_traces_endpoint) _ e₁ in
      let (_, p₃, e₃) = >>=-eq-loaded (validate_endpoint lib logs cfg.otlp_logs_endpoint) _ e₂ in
      (
        ground arith,
        validate_endpoint-IsPrivate metrics cfg.otlp_metrics_endpoint p₁,
        validate_endpoint-IsPrivate traces cfg.otlp_traces_endpoint p₂,
        validate_endpoint-IsPrivate logs cfg.otlp_logs_endpoint p₃,
      )

  -- How telemetry leaves: not at all, freely in development, or privately.
  pub record Exports (cfg : Config) : Type 0 where
    pub silent :
        cfg.disable_telemetry ≡ true
        → (cfg.otlp_metrics_endpoint ≡ [])
          × (cfg.otlp_traces_endpoint ≡ [])
          × (cfg.otlp_logs_endpoint ≡ [])
          × (cfg.otlp_connect_to ≡ [])
    pub private :
        cfg.disable_telemetry ≡ false
        → is_dev cfg.env_level ≡ false
        → IsPrivate cfg.otlp_metrics_endpoint
          × IsPrivate cfg.otlp_traces_endpoint
          × IsPrivate cfg.otlp_logs_endpoint

  abbrev pub Policed : Config → Config → Type 0
  Policed cfg out = ((out ≡ silenced lib cfg) ⊎ (out ≡ cfg)) × Exports out

  pub apply_telemetry_policy-Policed :
      (cfg out : Config) → apply_telemetry_policy lib cfg ≡ loaded out → Policed cfg out
  unfolding apply_telemetry_policy
  apply_telemetry_policy-Policed cfg out e = elim (Bool-cases cfg.disable_telemetry) [
    | inl off ↦
        let same : silenced lib cfg ≡ out = ground arith in
        subst (Policed cfg) same (
          inl refl,
          record {
            silent = λ _. (refl, refl, refl, refl);
            private = λ on dev. absurd (ground arith);
          },
        )
    | inr on ↦ elim (Bool-cases (is_dev cfg.env_level)) [
      | inl dev ↦
          let same : cfg ≡ out = ground arith in
          subst (Policed cfg) same (
            inr refl,
            record {
              silent = λ off. absurd (ground arith);
              private = λ _ strict. absurd (ground arith);
            },
          )
      | inr strict ↦
          let checked : validate_endpoints lib cfg ≡ loaded out = ground arith in
          let (same, m, t, l) = validate_endpoints-IsPrivate cfg out checked in
          subst (Policed cfg) same
            (inr refl, record { silent = λ off. absurd (ground arith); private = λ _ _. (m, t, l) })
    ]
  ]

  -- The controller is reached over mutual TLS, or in development without TLS.
  pub record Reaches (cfg : Config) : Type 0 where
    pub url : Url
    pub parsed : lib.parse_url cfg.traversal_controller_url ≡ some url
    pub secured :
        ((url.scheme ≡ https)
          × (cert : Text) × (key : Text) × (cfg.tls_cert ≡ some cert)
          × (cfg.tls_key ≡ some key)
          × (lib.key_pair cert key ≡ true))
        ⊎ ((url.scheme ≡ http) × (is_dev cfg.env_level ≡ true))

  check_key_pair_lem :
      (c k : Option Text)
      → check_key_pair lib c k ≡ loaded tt
      → (cert : Text) × (key : Text) × (c ≡ some cert)
        × (k ≡ some key)
        × (lib.key_pair cert key ≡ true)
  check_key_pair_lem none k e = cc
  check_key_pair_lem (some c) none e = cc
  check_key_pair_lem (some c) (some k) e =
      let bad = refuse_if-loaded (not (lib.key_pair c k)) certificate_bad e in
      (c, k, refl, refl, ground (arith, bad))

  pub validate_controller_connection-Reaches :
      (cfg : Config) → validate_controller_connection lib cfg ≡ loaded tt → Reaches cfg
  unfolding validate_controller_connection
  validate_controller_connection-Reaches cfg e =
      let (u, p, e₁) =
        >>=-eq-loaded (required (lib.parse_url cfg.traversal_controller_url) url_malformed) _ e in
      record {
        url = u;
        parsed = required-loaded (lib.parse_url cfg.traversal_controller_url) url_malformed p;
        secured = elim (Bool-cases (text_eq u.scheme https)) [
          | inl tls ↦
              let (cert, key, c, k, pair) =
                check_key_pair_lem cfg.tls_cert cfg.tls_key (ground arith) in
              inl ((text_eq_iff u.scheme https).0 tls, cert, key, c, k, pair)
          | inr plain ↦ elim (Bool-cases (text_eq u.scheme http)) [
            | inl clear ↦ inr ((text_eq_iff u.scheme http).0 clear, ground arith)
            | inr other ↦ absurd (ground arith)
          ]
        ];
      }

  -- Remote configuration is polled at most once in no time and at least daily, under a canonical ID.
  abbrev pub Polls : Config → Type 0
  Polls cfg =
      cfg.config_enabled ≡ true
      → (pos 0 <ℤ cfg.config_refresh_interval)
        × (cfg.config_refresh_interval ≤ℤ max_refresh_interval lib)
        × (is_connector_id lib.uuid cfg.connector_id ≡ true)

  pub validate_remote_config-Polls :
      (cfg : Config) → validate_remote_config lib cfg ≡ loaded tt → Polls cfg
  unfolding validate_remote_config
  validate_remote_config-Polls cfg e on =
      let untimely =
        not (ltb_ℤ (pos 0) cfg.config_refresh_interval)
        || ltb_ℤ (max_refresh_interval lib) cfg.config_refresh_interval in
      let (_, p, e₁) =
        >>=-eq-loaded (refuse_if untimely refresh_interval_bad)
          (λ _.
            refuse_if (not (is_connector_id lib.uuid cfg.connector_id)) connector_id_not_canonical)
          (ground arith) in
      let timely = refuse_if-loaded untimely refresh_interval_bad p in
      let named =
        refuse_if-loaded (not (is_connector_id lib.uuid cfg.connector_id))
          connector_id_not_canonical e₁ in
      (ground (arith, timely), ground (arith, timely), ground (arith, named))

  -- An address that overrides another: none, or a host and a port that can be dialed.
  abbrev pub Dialable : Text → Type 0
  Dialable address =
      (address ≡ [])
      ⊎ ((host : Text) × (port : Text) × (lib.split_host_port address ≡ some (host, port))
          × (is_empty host ≡ false)
          × (any (λ c. any (λ d. c == d) (codes "/?#@")) host ≡ false)
          × (bad_port lib port ≡ false))

  pub validate_connect_to-Dialable :
      (env_var address : Text)
      → validate_connect_to lib env_var address ≡ loaded tt
      → Dialable address
  unfolding validate_connect_to
  validate_connect_to-Dialable env_var address e = elim (Bool-cases (is_empty address)) [
    | inl unset ↦ inl (is_empty_nil address unset)
    | inr given ↦ elim (Option-cases (lib.split_host_port address)) [
      | inl missed ↦ absurd (ground arith)
      | inr ((host, port), found) ↦
          let fine : bad_destination lib host port ≡ false =
            refuse_if-loaded (bad_destination lib host port) (connect_to_bad env_var)
              (ground arith) in
          let no_reserved : any (λ c. any (λ d. c == d) (codes "/?#@")) host ≡ false =
            ground (arith, fine) in
          inr (host, port, found, ground (arith, fine), no_reserved, ground (arith, fine))
    ]
  ]
