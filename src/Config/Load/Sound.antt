-- ===== src/Config/Load/Sound.antt =====
-- What holds of a configuration that Load returns.
use traversal_connector.Common.{
  ◌≡◌, refl, sym, subst, ◌⊎◌, inl, inr, Bool, true, false, not, ◌&&◌, ◌||◌, Option, none, some, [],
  ◌∷◌, ◌++◌, arith, if◌then◌else◌, Text, codes, is_empty, is_some, Bool-cases,
}
use traversal_connector.Common.Int.{ℤ, pos, ◌≤ℤ◌, ◌<ℤ◌, ltb_ℤ}
use traversal_connector.Env.{
  Environment, Reader, has_errors, strict_int, strict_duration, get_env_optional_string,
  get_env_string,
}
use traversal_connector.Config.{
  Config, Library, loaded, refuse_if, required, >>=-eq-loaded, after, refuse_if-loaded,
  required-loaded, reload_interval_bad, max_concurrent_redactions_limit,
  default_max_concurrent_redactions, default_uncovered_stream_max_lifetime, proxy_with_connect_to,
  env_name_missing, url_missing, connector_id_missing, settings_invalid, config_endpoint_set,
}
use traversal_connector.Config.Checks.{
  silenced, validate_controller_connection, validate_remote_config, validate_connect_to,
}
use traversal_connector.Config.Load.{
  load, check_settings, reload_interval, settings, strict_concurrent, strict_lifetime,
  load_environment, controller_connect_to, exporter_connect_to, load_upstream_tls_ca,
  load_config_enabled,
}
use traversal_connector.Config.Checks.Sound.{
  Dialable, validate_connect_to-Dialable, is_empty_nil, Exports, Policed, Reaches, Polls,
  apply_telemetry_policy-Policed, validate_controller_connection-Reaches,
  validate_remote_config-Polls,
}

direct_lem :
    (p c o : Text)
    → (not (is_empty (if is_empty p then [] else p)) && (not (is_empty c) || not (is_empty o)))
      ≡ false
    → ((if is_empty p then none else some p) ≡ none) ⊎ ((c ≡ []) × (o ≡ []))
direct_lem p c o e = ground (arith, is_empty_nil c, is_empty_nil o)

module _ (lib : Library) where
  -- What REDACTION_RELOAD_INTERVAL can change.
  reload_interval_lem :
      (Q : Config → Type 0) (cfg timed : Config) (raw : Text)
      → pos 0 <ℤ cfg.redaction_reload_interval
      → ((x : ℤ) → pos 0 <ℤ x → Q (record cfg { redaction_reload_interval = x }))
      → reload_interval lib cfg raw ≡ loaded timed
      → Q timed
  reload_interval_lem Q cfg timed raw now q e =
      elim (Bool-cases (not (is_some cfg.redaction_rules_file) || is_empty raw)) [
        | inl unused ↦
            let same : cfg ≡ timed = ground arith in
            subst Q same (q cfg.redaction_reload_interval now)
        | inr used ↦
            let interval = (lib.parsers.parse_duration raw).0 in
            let bad = not (lib.parsers.parse_duration raw).1 || not (ltb_ℤ (pos 0) interval) in
            let set : Config = record cfg { redaction_reload_interval = interval } in
            let (_, p, same) =
              >>=-eq-loaded (refuse_if bad reload_interval_bad) (λ _. loaded set) {b = timed}
                (ground arith) in
            let fine = refuse_if-loaded bad reload_interval_bad p in
            let equal : set ≡ timed = ground arith in
            subst Q equal (q interval (ground (arith, fine)))
      ]

  -- The strict settings, once no error was read.
  strict_int_lem :
      (env : Environment) (key : Text) (def limit : ℤ)
      → has_errors (strict_int lib.parsers env [] key def limit).0 ≡ false
      → pos 1 ≤ℤ def
      → def ≤ℤ limit
      → (pos 1 ≤ℤ (strict_int lib.parsers env [] key def limit).1)
        × ((strict_int lib.parsers env [] key def limit).1 ≤ℤ limit)
  unfolding strict_int
  strict_int_lem env key def limit e lo hi = (ground arith, ground arith)

  has_errors-append : (errs : Reader) (key : Text) → has_errors (errs ++ key ∷ []) ≡ true
  has_errors-append [] key = refl
  has_errors-append (e ∷ errs) key = refl

  strict_duration_lem :
      (env : Environment) (errs : Reader) (key : Text) (def : ℤ)
      → has_errors (strict_duration lib.parsers env errs key def).0 ≡ false
      → pos 0 ≤ℤ def
      → (has_errors errs ≡ false) × (pos 0 ≤ℤ (strict_duration lib.parsers env errs key def).1)
  unfolding strict_duration
  strict_duration_lem env errs key def e lo =
      (ground (arith, has_errors-append errs key), ground (arith, has_errors-append errs key))

  check_settings_lem :
      (env : Environment) (cfg out : Config)
      → pos 0 <ℤ cfg.redaction_reload_interval
      → check_settings lib env cfg ≡ loaded out
      → (has_errors (strict_lifetime lib env).0 ≡ false)
        × (x : ℤ) × (pos 0 <ℤ x)
        × Reaches lib (record cfg { redaction_reload_interval = x })
        × Polls lib (record cfg { redaction_reload_interval = x })
        × Policed lib (record cfg { redaction_reload_interval = x }) out
  unfolding check_settings
  check_settings_lem env cfg out now e =
      let errs = (strict_lifetime lib env).0 in
      let old = env (codes "TRAVERSAL_CONFIG_ENDPOINT") in
      let (_, p₁, e₁) = >>=-eq-loaded (refuse_if (has_errors errs) (settings_invalid errs)) _ e in
      let (_, _, e₂) = >>=-eq-loaded (refuse_if (not (is_empty old)) config_endpoint_set) _ e₁ in
      let (timed, p₃, e₃) =
        >>=-eq-loaded (reload_interval lib cfg (env (codes "REDACTION_RELOAD_INTERVAL"))) _ e₂ in
      let (_, p₄, e₄) = >>=-eq-loaded (validate_remote_config lib timed) _ e₃ in
      let (_, p₅, e₅) = >>=-eq-loaded (validate_controller_connection lib timed) _ e₄ in
      let (x, good, r, m, t) =
        reload_interval_lem
          (λ (c : Config).
            Polls lib c
            → Reaches lib c
            → Policed lib c out
            → (x : ℤ) × (pos 0 <ℤ x)
              × Reaches lib (record cfg { redaction_reload_interval = x })
              × Polls lib (record cfg { redaction_reload_interval = x })
              × Policed lib (record cfg { redaction_reload_interval = x }) out)
          cfg timed (env (codes "REDACTION_RELOAD_INTERVAL")) now
          (λ x good m r t. (x, good, r, m, t)) p₃ (validate_remote_config-Polls lib timed p₄)
          (validate_controller_connection-Reaches lib timed p₅)
          (apply_telemetry_policy-Policed lib timed out e₅) in
      (refuse_if-loaded (has_errors errs) (settings_invalid errs) p₁, x, good, r, m, t)

  -- No address is overridden behind an egress proxy.
  abbrev pub Direct : Config → Type 0
  Direct cfg =
      (cfg.egress_proxy_url ≡ none)
      ⊎ ((cfg.traversal_controller_connect_to ≡ []) × (cfg.otlp_connect_to ≡ []))

  -- A configuration with which the connector may start.
  pub record IsSafe (cfg : Config) : Type 0 where
    pub env_named : is_empty cfg.env_name ≡ false
    pub reaches : Reaches lib cfg
    pub direct : Direct cfg
    pub controller_dialed : Dialable lib cfg.traversal_controller_connect_to
    pub exporter_dialed : Dialable lib cfg.otlp_connect_to
    pub concurrent :
        (pos 1 ≤ℤ cfg.max_concurrent_redactions)
        × (cfg.max_concurrent_redactions ≤ℤ max_concurrent_redactions_limit)
    pub lifetime : pos 0 ≤ℤ cfg.uncovered_stream_max_lifetime
    pub polls : Polls lib cfg
    pub reloads : pos 0 <ℤ cfg.redaction_reload_interval

  get_env_optional_string-some :
      (env : Environment) (key v : Text)
      → get_env_optional_string env key ≡ some v
      → is_empty v ≡ false
  get_env_optional_string-some env key v e = ground arith

  -- The destination that a setting overrides is not behind a proxy.
  abbrev proxied : Environment → Bool
  proxied env =
      not (is_empty (get_env_string env (codes "EGRESS_PROXY_URL") []))
      && (not (is_empty (controller_connect_to lib env))
          || not (is_empty (exporter_connect_to lib env)))

  settings-Direct :
      (env : Environment) (name url id : Text) (ca : Option Text) (enabled : Bool)
      → proxied env ≡ false
      → Direct (settings lib env name url id ca enabled)
  unfolding settings
  settings-Direct env name url id ca enabled e =
      direct_lem (env (codes "EGRESS_PROXY_URL")) (controller_connect_to lib env)
        (exporter_connect_to lib env) e

  silenced-IsSafe : (t : Config) → IsSafe t → IsSafe (silenced lib t)
  silenced-IsSafe t s = record {
    env_named = s.env_named;
    reaches = let r = s.reaches in record { url = r.url; parsed = r.parsed; secured = r.secured };
    direct = elim s.direct [ inl e ↦ inl e | inr (e, _) ↦ inr (e, refl) ];
    controller_dialed = s.controller_dialed;
    exporter_dialed = inl refl;
    concurrent = s.concurrent;
    lifetime = s.lifetime;
    polls = s.polls;
    reloads = s.reloads;
  }

  Policed-IsSafe : (t cfg : Config) → Policed lib t cfg → IsSafe t → IsSafe cfg × Exports lib cfg
  Policed-IsSafe t cfg (inl same, x) s = (subst IsSafe (sym same) (silenced-IsSafe t s), x)
  Policed-IsSafe t cfg (inr same, x) s = (subst IsSafe (sym same) s, x)

  settings-IsSafe :
      (env : Environment) (name url id : Text) (ca : Option Text) (enabled : Bool) (cfg : Config)
      → is_empty name ≡ false
      → proxied env ≡ false
      → Dialable lib (controller_connect_to lib env)
      → Dialable lib (exporter_connect_to lib env)
      → check_settings lib env (settings lib env name url id ca enabled) ≡ loaded cfg
      → IsSafe cfg × Exports lib cfg
  unfolding settings
  settings-IsSafe env name url id ca enabled cfg named direct c o e =
      let start = settings lib env name url id ca enabled in
      let (fine, x, good, r, m, t) = check_settings_lem env start cfg (ground arith) e in
      let (read, lasts) =
        strict_duration_lem env (strict_concurrent lib env).0
          (codes "TRAVERSAL_UNCOVERED_STREAM_MAX_LIFETIME") default_uncovered_stream_max_lifetime
          fine (ground arith) in
      Policed-IsSafe (record start { redaction_reload_interval = x }) cfg t
        (record {
          env_named = named;
          reaches = r;
          direct = settings-Direct env name url id ca enabled direct;
          controller_dialed = c;
          exporter_dialed = o;
          concurrent =
              strict_int_lem env (codes "TRAVERSAL_REDACTION_MAX_CONCURRENT")
                default_max_concurrent_redactions max_concurrent_redactions_limit read
                (ground arith) (ground arith);
          lifetime = lasts;
          polls = m;
          reloads = good;
        })

  -- Load returns only a configuration with which the connector may start. Its environment has a
  -- name. The controller is reached over TLS with a certificate and its key, or, in development
  -- alone, without. Telemetry goes nowhere if it is disabled; if not, outside development all
  -- three signals go to hosts over TLS or to loopback. An address is overridden only by a host
  -- and a port, and none behind an egress proxy. The strict settings are in their bounds, remote
  -- configuration is polled in more than no time and within a day under a canonical ID, and the
  -- rule file is read at a positive interval.
  pub load_sound :
      (start : Environment) (cfg : Config)
      → load lib start ≡ loaded cfg
      → IsSafe cfg × Exports lib cfg
  unfolding load
  load_sound start cfg e = after (load_environment lib start) _ e λ env _ e₁.
      after (required (get_env_optional_string env (codes "ENV_NAME")) env_name_missing) _ e₁
        λ name named e₂.
          after
            (required (get_env_optional_string env (codes "TRAVERSAL_CONTROLLER_URL")) url_missing)
            _ e₂
            λ url _ e₃.
              after
                (required (get_env_optional_string env (codes "TRAVERSAL_CONNECTOR_ID"))
                  connector_id_missing)
                _ e₃
                λ id _ e₄. after (refuse_if (proxied env) proxy_with_connect_to) _ e₄ λ _ direct e₅.
                  after
                    (validate_connect_to lib (codes "TRAVERSAL_CONTROLLER_CONNECT_TO")
                      (controller_connect_to lib env))
                    _ e₅
                    λ _ controller e₆.
                      after
                        (validate_connect_to lib (codes "OTEL_EXPORTER_OTLP_CONNECT_TO")
                          (exporter_connect_to lib env))
                        _ e₆
                        λ _ exporter e₇. after (load_upstream_tls_ca lib env) _ e₇ λ ca _ e₈.
                          after (load_config_enabled lib (env (codes "TRAVERSAL_CONFIG_ENABLED"))) _
                            e₈
                            λ enabled _ e₉.
                              settings-IsSafe env name url id ca enabled cfg
                                (get_env_optional_string-some env (codes "ENV_NAME") name (
                                  required-loaded (get_env_optional_string env (codes "ENV_NAME"))
                                    env_name_missing named))
                                (refuse_if-loaded (proxied env) proxy_with_connect_to direct)
                                (validate_connect_to-Dialable lib
                                  (codes "TRAVERSAL_CONTROLLER_CONNECT_TO")
                                  (controller_connect_to lib env) controller)
                                (validate_connect_to-Dialable lib
                                  (codes "OTEL_EXPORTER_OTLP_CONNECT_TO")
                                  (exporter_connect_to lib env) exporter)
                                e₉
