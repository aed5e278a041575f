-- ===== src/PipeServer/Egress.antt =====
-- internal/pipeserver/config.go: how a pipe's requests reach their destinations.
pub mod Built
pub mod Settings
pub mod Avoids
mod Tests
use traversal_connector.Common.{
  ℕ, Bool, true, false, not, ◌&&◌, ◌||◌, Option, none, some, List, [], ◌∷◌, ◌++◌, if◌then◌else◌,
  Text, codes, text_eq, is_empty, split, http, is_some,
}
use traversal_connector.Common.Decimal.{format_uint16}
use traversal_connector.Env.{Environment, Reader, strict_bool}
use traversal_connector.Hostname.{Std, Addr, join_host_port}
use traversal_connector.RawPipe.{Result}
use traversal_connector.Config.{Url}
use traversal_connector.Config.Checks.{contains_text}
use traversal_connector.DialPolicy.{Prefix, Config, Policy, new, Target, plan}

-- httpproxy.FromEnvironment.
pub record Ambient : Type 0 where
  pub https_proxy : Text
  pub http_proxy : Text
  pub no_proxy : Text

-- What newPolicy takes of the libraries: net/url, netip.ParsePrefix, strings.TrimSpace, the proxies
-- of the environment, and the proxy function of golang.org/x/net, of a proxy, NO_PROXY and the host
-- of an https URL, which is none on an error, and otherwise the proxy to use, if any.
pub record Library : Type 0 where
  pub parse_url : Text → Option Url
  pub parse_prefix : Text → Option Prefix
  pub trim_space : Text → Text
  pub ambient : Ambient
  pub proxy_func : Text → Text → Text → Option (Option Text)

-- upstream.Dialer, without the counter of the dials through a proxy: the policy with the proxy, and, for a proxy of the environment, whether a
-- destination goes direct and the policy without it.
pub record Dialer : Type 0 where
  pub proxied : Policy
  pub direct : Option ((Text → ℕ → Bool) × Policy)

-- parseProxy, whose result is read for its Host; none is its error.
abbrev pub http_host : Option Url → Option Text
http_host none = none
http_host (some u) = if text_eq u.scheme http && not (is_empty u.host) then some u.host else none

-- Whether NO_PROXY exempts a destination.
abbrev pub is_exempt : Option (Option Text) → Bool
is_exempt (some none) = true
is_exempt _ = false

abbrev pub Route : Type 0
Route = Option Text × Option (Text → ℕ → Bool)

abbrev pub route_through : Option (Text → ℕ → Bool) → Option Text → Option Route
route_through direct none = none
route_through direct (some via) = some (some via, direct)

-- The loop of forbiddenCIDRs; none is its error.
abbrev pub prepend : Option Prefix → Option (List Prefix) → Option (List Prefix)
prepend (some p) (some ps) = some (p ∷ ps)
prepend _ _ = none

abbrev pub policy_config : Option Text → Bool → List Prefix → Config
policy_config proxy resolves extra = record {
  proxy = proxy;
  proxy_resolves = resolves;
  extra_forbidden = extra;
}

-- The dialer of a route, with the addresses of the host when each policy is built.
abbrev pub dialer_with :
    Option (List Addr) → Config → Option (Text → ℕ → Bool) → Policy → Option Dialer
dialer_with own cfg none proxied = some (record { proxied = proxied; direct = none })
dialer_with own cfg (some exempt) proxied = elim (new (record cfg { proxy = none }) own) [
  | none ↦ none
  | some unproxied ↦ some (record { proxied = proxied; direct = some (exempt, unproxied) })
]

unfoldable pub build_dialer :
    Option (List Addr) → Option (List Addr) → Config → Option (Text → ℕ → Bool) → Option Dialer
build_dialer own own' cfg direct = elim (new cfg own) [
  | none ↦ none
  | some proxied ↦ dialer_with own' cfg direct proxied
]

module _ (lib : Library) where
  open lib use {parse_url, parse_prefix, trim_space, ambient, proxy_func}

  abbrev pub parse_proxy : Text → Option Text
  parse_proxy raw = http_host (parse_url raw)

  -- cmp.Or.
  abbrev pub ambient_proxy : Text
  ambient_proxy = if is_empty ambient.https_proxy then ambient.http_proxy else ambient.https_proxy

  abbrev pub with_scheme : Text → Text
  with_scheme raw = if contains_text raw (codes "://") then raw else codes "http://" ++ raw

  abbrev pub exempts : Text → Text → ℕ → Bool
  exempts raw host port =
      is_exempt (proxy_func raw ambient.no_proxy (join_host_port host (format_uint16 port)))

  unfoldable pub egress_proxy : Environment → Option Route
  egress_proxy env =
      let setting = env (codes "TRAVERSAL_PIPES_EGRESS_PROXY") in
      if not (is_empty setting)
      then route_through none (parse_proxy setting)
      else if is_empty ambient_proxy
      then some (none, none)
      else route_through (some (exempts (with_scheme ambient_proxy)))
          (parse_proxy (with_scheme ambient_proxy))

  unfoldable pub parse_prefixes : List Text → Option (List Prefix)
  parse_prefixes [] = some []
  parse_prefixes (cidr ∷ cidrs) = prepend (parse_prefix (trim_space cidr)) (parse_prefixes cidrs)

  unfoldable pub forbidden_cidrs : Text → Option (List Prefix)
  unfolding parse_prefixes
  forbidden_cidrs v =
      if is_empty v then some [] else let (p, ps) = split b',' v in parse_prefixes (p ∷ ps)

  -- newPolicy, with the settings that its Reader finds invalid.
  abbrev pub resolves : Environment → Reader → Option (Text → ℕ → Bool) → Reader × Bool
  resolves env errs direct =
      strict_bool env errs (codes "TRAVERSAL_PIPES_EGRESS_PROXY_RESOLVES") (is_some direct)

  abbrev pub dialer_for :
      Environment
      → Reader
      → Option (List Addr)
      → Option (List Addr)
      → Route
      → List Prefix
      → Reader × Option Dialer
  dialer_for env errs own own' (proxy, direct) extra =
      let (errs', resolve) = resolves env errs direct in
      (errs', build_dialer own own' (policy_config proxy resolve extra) direct)

  unfoldable pub new_policy :
      Environment → Reader → Option (List Addr) → Option (List Addr) → Reader × Option Dialer
  unfolding egress_proxy forbidden_cidrs
  new_policy env errs own own' = elim (egress_proxy env) [
    | none ↦ (errs, none)
    | some route ↦ elim (forbidden_cidrs (env (codes "TRAVERSAL_PIPES_FORBIDDEN_CIDRS"))) [
      | none ↦ (errs, none)
      | some extra ↦ dialer_for env errs own own' route extra
    ]
  ]

-- The dialer that newPolicy returns, up to its first connection.
module _ (std : Std) (lookup : Text → Option (List Addr)) where
  unfoldable pub dial : Dialer → Text → ℕ → Result Target
  dial d host port = elim d.direct [
    | none ↦ plan std lookup d.proxied host port
    | some (exempt, unproxied) ↦
        if exempt host port
        then plan std lookup unproxied host port
        else plan std lookup d.proxied host port
  ]
