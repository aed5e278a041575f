-- ===== src/PipeServer/Egress/Settings.antt =====
-- What the environment says of the dialer: the proxy, what goes past it, and the denied prefixes.
use traversal_connector.Common.{
  ℕ, ◌≡◌, ◌≢◌, sym, subst, ◌↔◌, inl, inr, Bool, true, false, not, ◌&&◌, Option, none, some, List,
  [], ◌∷◌, ◌++◌, arith, Text, codes, text_eq, text_eq_iff, is_empty, split, join, join-split,
  split-Lacks, lacks, all, http, Bool-cases, Option-cases,
}
use traversal_connector.Common.Decimal.{format_uint16}
use traversal_connector.Env.{Environment}
use traversal_connector.Hostname.{join_host_port}
use traversal_connector.Config.{Url}
use traversal_connector.Config.Checks.{contains_text}
use traversal_connector.DialPolicy.{Prefix}
use traversal_connector.PipeServer.Egress.{
  Library, is_exempt, parse_proxy, ambient_proxy, with_scheme, exempts, egress_proxy,
  parse_prefixes, forbidden_cidrs,
}

empty_iff : (s : Text) → (is_empty s ≡ true) ↔ (s ≡ [])
empty_iff [] = ground arith
empty_iff (c ∷ s) = ground arith

module _ (lib : Library) where
  -- Each text is a prefix, blanks around it aside, and all of them are there, in their order.
  pub data Each : List Text → List Prefix → Type 0 where
    no_more : Each [] []
    one :
        (cidr : Text) (p : Prefix) (cidrs : List Text) (ps : List Prefix)
        → lib.parse_prefix (lib.trim_space cidr) ≡ some p
        → Each cidrs ps
        → Each (cidr ∷ cidrs) (p ∷ ps)

  -- The prefixes of a list with commas between them; there are none in an empty text.
  pub data Lists (v : Text) (extra : List Prefix) : Type 0 where
    unset : v ≡ [] → extra ≡ [] → Lists v extra
    listed :
        (cidr : Text) (cidrs : List Text)
        → v ≢ []
        → v ≡ join b',' cidr cidrs
        → (lacks b',' cidr && all (lacks b',') cidrs) ≡ true
        → Each (cidr ∷ cidrs) extra
        → Lists v extra

  parse_prefixes-Each :
      (cidrs : List Text) (ps : List Prefix) → parse_prefixes lib cidrs ≡ some ps → Each cidrs ps
  unfolding parse_prefixes
  parse_prefixes-Each [] ps e =
      let same : ◌≡◌ {A = List Prefix} [] ps = ground arith in subst (Each []) same no_more
  parse_prefixes-Each (cidr ∷ cidrs) ps e =
      elim (Option-cases (lib.parse_prefix (lib.trim_space cidr))) [
        | inl bad ↦ absurd (ground arith)
        | inr (p, good) ↦ elim (Option-cases (parse_prefixes lib cidrs)) [
          | inl bad ↦ absurd (ground arith)
          | inr (qs, rest) ↦
              let same : p ∷ qs ≡ ps = ground arith in
              subst (Each (cidr ∷ cidrs)) same
                (one cidr p cidrs qs good (parse_prefixes-Each cidrs qs rest))
        ]
      ]

  pub forbidden_cidrs-Lists :
      (v : Text) (extra : List Prefix) → forbidden_cidrs lib v ≡ some extra → Lists v extra
  unfolding forbidden_cidrs
  forbidden_cidrs-Lists v extra e = elim (Bool-cases (is_empty v)) [
    | inl blank ↦ unset ((empty_iff v).0 blank) (ground arith)
    | inr given ↦
        listed (split b',' v).0 (split b',' v).1 (ground (arith, given, empty_iff v))
          (sym (join-split b',' v)) (split-Lacks b',' v)
          (parse_prefixes-Each ((split b',' v).0 ∷ (split b',' v).1) extra (ground arith))
  ]

  -- The URL of a proxy, by its scheme and its host.
  pub record IsProxy (raw via : Text) : Type 0 where
    pub url : Url
    pub parsed : lib.parse_url raw ≡ some url
    pub scheme : url.scheme ≡ http
    pub host : url.host ≡ via
    pub given : via ≢ []

  -- The proxy of the ambient environment, that of HTTPS first.
  pub data IsAmbient : Text → Type 0 where
    for_https : lib.ambient.https_proxy ≢ [] → IsAmbient lib.ambient.https_proxy
    for_http :
        lib.ambient.https_proxy ≡ []
        → lib.ambient.http_proxy ≢ []
        → IsAmbient lib.ambient.http_proxy

  -- With a scheme, a text is a URL as it is; without, it is one of http.
  pub data IsSpelled (raw : Text) : Text → Type 0 where
    as_is : contains_text raw (codes "://") ≡ true → IsSpelled raw raw
    bare : contains_text raw (codes "://") ≡ false → IsSpelled raw (codes "http://" ++ raw)

  -- Exactly the destinations go past a proxy of the ambient environment for which the proxy
  -- function gives none, and no error.
  abbrev pub Exempts : Text → (Text → ℕ → Bool) → Type 0
  Exempts url exempt =
      (host : Text) (port : ℕ)
      → (exempt host port ≡ true) ↔ (
          lib.proxy_func url lib.ambient.no_proxy (join_host_port host (format_uint16 port))
          ≡ some none)

  -- The proxy, and what goes past it: nothing past the one of the connector's own setting, which
  -- comes before the ambient one.
  pub data Routed (setting : Text) : Option Text → Option (Text → ℕ → Bool) → Type 0 where
    by_setting : (via : Text) → setting ≢ [] → IsProxy setting via → Routed setting (some via) none
    no_proxy :
        setting ≡ []
        → lib.ambient.https_proxy ≡ []
        → lib.ambient.http_proxy ≡ []
        → Routed setting none none
    by_ambient :
        (raw url via : Text) (exempt : Text → ℕ → Bool)
        → setting ≡ []
        → IsAmbient raw
        → IsSpelled raw url
        → IsProxy url via
        → Exempts url exempt
        → Routed setting (some via) (some exempt)

  parse_proxy-IsProxy : (raw via : Text) → parse_proxy lib raw ≡ some via → IsProxy raw via
  parse_proxy-IsProxy raw via e = elim (Option-cases (lib.parse_url raw)) [
    | inl bad ↦ absurd (ground arith)
    | inr (u, parsed) ↦ elim (Bool-cases (text_eq u.scheme http && not (is_empty u.host))) [
      | inl good ↦
          let host : u.host ≡ via = ground arith in
          record {
            url = u;
            parsed = parsed;
            scheme = ground (arith, good, text_eq_iff u.scheme http);
            host = host;
            given = λ q. ground (arith, good, host, q, empty_iff u.host);
          }
      | inr bad ↦ absurd (ground arith)
    ]
  ]

  exempts-Exempts : (url : Text) → Exempts url (exempts lib url)
  exempts-Exempts url host port =
      go (lib.proxy_func url lib.ambient.no_proxy (join_host_port host (format_uint16 port)))
    where
      go : (x : Option (Option Text)) → (is_exempt x ≡ true) ↔ (x ≡ some none)
      go none = ground arith
      go (some none) = ground arith
      go (some (some via)) = ground arith

  ambient_proxy-IsAmbient : is_empty (ambient_proxy lib) ≡ false → IsAmbient (ambient_proxy lib)
  ambient_proxy-IsAmbient given = elim (Bool-cases (is_empty lib.ambient.https_proxy)) [
    | inl blank ↦
        let same : lib.ambient.http_proxy ≡ ambient_proxy lib = ground arith in
        subst IsAmbient same (
          for_http ((empty_iff lib.ambient.https_proxy).0 blank)
            (ground (arith, empty_iff lib.ambient.http_proxy)))
    | inr set_ ↦
        let same : lib.ambient.https_proxy ≡ ambient_proxy lib = ground arith in
        subst IsAmbient same (for_https (ground (arith, set_, empty_iff lib.ambient.https_proxy)))
  ]

  with_scheme-IsSpelled : (raw : Text) → IsSpelled raw (with_scheme lib raw)
  with_scheme-IsSpelled raw = elim (Bool-cases (contains_text raw (codes "://"))) [
    | inl yes_ ↦ rw (yes_) (as_is yes_)
    | inr no_ ↦ rw (no_) (bare no_)
  ]

  pub egress_proxy-Routed :
      (env : Environment) (proxy : Option Text) (exempt : Option (Text → ℕ → Bool))
      → egress_proxy lib env ≡ some (proxy, exempt)
      → Routed (env (codes "TRAVERSAL_PIPES_EGRESS_PROXY")) proxy exempt
  unfolding egress_proxy
  egress_proxy-Routed env proxy exempt e =
      let setting = env (codes "TRAVERSAL_PIPES_EGRESS_PROXY") in
      let raw = ambient_proxy lib in
      let routed : Option Text × Option (Text → ℕ → Bool) → Type 0 = λ r. Routed setting r.0 r.1 in
      elim (Bool-cases (is_empty setting)) [
        | inr given ↦ elim (Option-cases (parse_proxy lib setting)) [
          | inl bad ↦ absurd (ground arith)
          | inr (via, good) ↦
              let same : ◌≡◌ {A = Option Text × Option (Text → ℕ → Bool)} (some via, none)
                  (proxy, exempt) =
                ground arith in
              subst routed same (
                by_setting via (ground (arith, given, empty_iff setting))
                  (parse_proxy-IsProxy setting via good))
        ]
        | inl blank ↦ elim (Bool-cases (is_empty raw)) [
          | inl no_ambient ↦
              let same : ◌≡◌ {A = Option Text × Option (Text → ℕ → Bool)} (none, none)
                  (proxy, exempt) =
                ground arith in
              subst routed same (
                no_proxy ((empty_iff setting).0 blank)
                  (ground
                    (arith, empty_iff lib.ambient.https_proxy, empty_iff lib.ambient.http_proxy))
                  (ground
                    (arith, empty_iff lib.ambient.https_proxy, empty_iff lib.ambient.http_proxy)))
          | inr ambient ↦ elim (Option-cases (parse_proxy lib (with_scheme lib raw))) [
            | inl bad ↦ absurd (ground arith)
            | inr (via, good) ↦
                let same : ◌≡◌ {A = Option Text × Option (Text → ℕ → Bool)}
                    (some via, some (exempts lib (with_scheme lib raw))) (proxy, exempt) =
                  ground arith in
                subst routed same (
                  by_ambient raw (with_scheme lib raw) via (exempts lib (with_scheme lib raw))
                    ((empty_iff setting).0 blank) (ambient_proxy-IsAmbient ambient)
                    (with_scheme-IsSpelled raw) (parse_proxy-IsProxy (with_scheme lib raw) via good)
                    (exempts-Exempts (with_scheme lib raw)))
          ]
        ]
      ]
