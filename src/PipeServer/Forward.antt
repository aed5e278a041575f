-- ===== src/PipeServer/Forward.antt =====
-- internal/pipeserver/forward.go: one request inside a pipe.
use traversal_connector.Common.{
  http, https, ℕ, ◌≡◌, refl, ◌⊎◌, inl, inr, ◌≢◌, Bool, true, false, ◌∷◌, subst, not, ◌||◌, Option,
  none, some, ◌==◌, if◌then◌else◌, arith, Bool-cases, Option-cases, sym, [], Text, codes, text_eq,
  text_eq_iff, is_empty,
}
use traversal_connector.Common.Decimal.{format_uint16}
use traversal_connector.Hostname.{Std, authority, join_host_port}
use traversal_connector.RawPipe.{Reason, protocol_error, wrong_destination}
use traversal_connector.PipeServer.{probe_authority, method_connect}

abbrev pub probe_path : Text
probe_path = codes "/readyz"

abbrev pub method_get : Text
method_get = codes "GET"

-- A request inside a pipe, as far as `forward` reads it; `upstream_scheme` is the header of that
-- name, empty if it is absent.
pub record Inner : Type 0 where
  pub method : Text
  pub proto_major : ℕ
  pub url_scheme : Text
  pub upstream_scheme : Text
  pub host : Text
  pub path : Text

-- What becomes of a request: a refusal, a 404, the readiness, or the request that Upstream.Forward
-- sends, with the scheme and the host of its target.
pub data Forwarded : Type 0 where
  refuses : Reason → Forwarded
  not_found ready : Forwarded
  sends : Inner → Text → Text → Forwarded

abbrev pub is_http : Text → Bool
is_http v = text_eq v http || text_eq v https

-- none is an error.
unfoldable pub request_scheme : Inner → Option Text
request_scheme r =
    if r.proto_major == 2
    then if is_empty r.upstream_scheme
      then some https
      else if is_http r.upstream_scheme
      then some r.upstream_scheme
      else none
    else if is_http r.url_scheme
    then some r.url_scheme
    else none

unfoldable pub drop_upstream_scheme : Inner → Inner
drop_upstream_scheme r = record r { upstream_scheme = [] }

unfoldable pub answer_probe : Inner → Forwarded
answer_probe r =
    if not (text_eq r.path probe_path) || not (text_eq r.method method_get)
    then not_found
    else ready

unfoldable pub deliver : Inner → Text → Text → Forwarded
unfolding answer_probe drop_upstream_scheme
deliver r scheme pipe =
    if text_eq pipe probe_authority
    then answer_probe r
    else sends (drop_upstream_scheme r) scheme pipe

-- What is sent is the request but for the header that stated its scheme, which is gone.
pub record WithoutScheme (r q : Inner) : Type 0 where
  pub header : q.upstream_scheme ≡ []
  pub method : q.method ≡ r.method
  pub host : q.host ≡ r.host
  pub path : q.path ≡ r.path

-- A probe's pipe is answered here, with the readiness for a GET of its path and a 404 for the rest;
-- the request of any other goes to the pipe's destination, without the header that stated its scheme.
pub data Delivered (r : Inner) (pipe scheme : Text) (out : Forwarded) : Type 0 where
  probed :
      pipe ≡ probe_authority
      → r.path ≡ probe_path
      → r.method ≡ method_get
      → out ≡ ready
      → Delivered r pipe scheme out
  missed :
      pipe ≡ probe_authority
      → (r.path ≢ probe_path) ⊎ (r.method ≢ method_get)
      → out ≡ not_found
      → Delivered r pipe scheme out
  sent_on :
      (q : Inner)
      → pipe ≢ probe_authority
      → WithoutScheme r q
      → out ≡ sends q scheme pipe
      → Delivered r pipe scheme out

-- The scheme of a request: over HTTP/2 what its header states, and https without the header; over
-- HTTP/1.1 that of its absolute form.
pub data HasScheme (r : Inner) : Text → Type 0 where
  by_header : r.proto_major ≡ 2 → r.upstream_scheme ≢ [] → HasScheme r r.upstream_scheme
  by_default : r.proto_major ≡ 2 → r.upstream_scheme ≡ [] → HasScheme r https
  by_form : r.proto_major ≢ 2 → HasScheme r r.url_scheme

-- net/url's Hostname and Port of a host.
module _ (std : Std) (host_parts : Text → Text × Text) where
  unfoldable pub deliver_to : Inner → Text → Text → Option (Text × ℕ) → Forwarded
  unfolding deliver
  deliver_to r scheme pipe none = refuses wrong_destination
  deliver_to r scheme pipe (some (host, port)) =
      if text_eq (join_host_port host (format_uint16 port)) pipe
      then deliver r scheme pipe
      else refuses wrong_destination

  unfoldable pub forward_scheme : Inner → Text → Option Text → Forwarded
  unfolding deliver_to
  forward_scheme r pipe none = refuses protocol_error
  forward_scheme r pipe (some scheme) =
      let (hostname, port) = host_parts r.host in
      deliver_to r scheme pipe (authority std scheme hostname port)

  unfoldable pub forward : Inner → Text → Forwarded
  unfolding forward_scheme request_scheme
  forward r pipe =
      if text_eq r.method method_connect
      then refuses protocol_error
      else forward_scheme r pipe (request_scheme r)

  -- The request names this pipe's destination, in its scheme.
  pub record IsForPipe (r : Inner) (pipe scheme : Text) : Type 0 where
    pub has : HasScheme r scheme
    pub web : (scheme ≡ http) ⊎ (scheme ≡ https)
    pub host : Text
    pub port : ℕ
    pub names : authority std scheme (host_parts r.host).0 (host_parts r.host).1 ≡ some (host, port)
    pub same : join_host_port host (format_uint16 port) ≡ pipe

  request_scheme-web :
      (r : Inner) (scheme : Text)
      → request_scheme r ≡ some scheme
      → (scheme ≡ http) ⊎ (scheme ≡ https)
  unfolding request_scheme
  request_scheme-web r scheme e = ground (
    arith,
    text_eq_iff r.upstream_scheme http,
    text_eq_iff r.upstream_scheme https,
    text_eq_iff r.url_scheme http,
    text_eq_iff r.url_scheme https,
  )

  empty_iff : (s : Text) → (is_empty s ≡ true → s ≡ []) × (is_empty s ≡ false → s ≢ [])
  empty_iff [] = (λ e. refl, λ e. absurd (cc))
  empty_iff (c ∷ s) = (λ e. absurd (cc), λ e q. cc)

  request_scheme-HasScheme :
      (r : Inner) (scheme : Text) → request_scheme r ≡ some scheme → HasScheme r scheme
  unfolding request_scheme
  request_scheme-HasScheme r scheme e = elim (Bool-cases (r.proto_major == 2)) [
    | inl two ↦ elim (Bool-cases (is_empty r.upstream_scheme)) [
      | inl absent ↦
          let same : https ≡ scheme = ground arith in
          subst (HasScheme r) same
            (by_default (ground arith) ((empty_iff r.upstream_scheme).0 absent))
      | inr given ↦
          let same : r.upstream_scheme ≡ scheme = ground arith in
          subst (HasScheme r) same
            (by_header (ground arith) ((empty_iff r.upstream_scheme).1 given))
    ]
    | inr one ↦
        let same : r.url_scheme ≡ scheme = ground arith in
        subst (HasScheme r) same (by_form (ground arith))
  ]

  deliver-cases :
      (r : Inner) (scheme pipe : Text) (out : Forwarded)
      → deliver r scheme pipe ≡ out
      → Delivered r pipe scheme out
  unfolding deliver answer_probe drop_upstream_scheme
  deliver-cases r scheme pipe out e = elim (Bool-cases (text_eq pipe probe_authority)) [
    | inl probe ↦
        let named = (text_eq_iff pipe probe_authority).0 probe in
        elim (Bool-cases (text_eq r.path probe_path)) [
          | inl there ↦ elim (Bool-cases (text_eq r.method method_get)) [
            | inl get ↦
                probed named ((text_eq_iff r.path probe_path).0 there)
                  ((text_eq_iff r.method method_get).0 get) (ground arith)
            | inr other ↦
                missed named (inr (ground (arith, text_eq_iff r.method method_get))) (ground arith)
          ]
          | inr elsewhere ↦
              missed named (inl (ground (arith, text_eq_iff r.path probe_path))) (ground arith)
        ]
    | inr other ↦
        sent_on (record r { upstream_scheme = [] })
          (ground (arith, text_eq_iff pipe probe_authority))
          (record { header = refl; method = refl; host = refl; path = refl }) (ground arith)
  ]

  deliver_to-named :
      (r : Inner) (scheme pipe : Text) (a : Option (Text × ℕ)) (out : Forwarded)
      → deliver_to r scheme pipe a ≡ out
      → ((reason : Reason) → out ≢ refuses reason)
      → (host : Text) × (port : ℕ) × (a ≡ some (host, port))
        × (join_host_port host (format_uint16 port) ≡ pipe)
        × (deliver r scheme pipe ≡ out)
  unfolding deliver_to
  deliver_to-named r scheme pipe none out e other = absurd (other wrong_destination (sym e))
  deliver_to-named r scheme pipe (some (host, port)) out e other =
      elim (Bool-cases (text_eq (join_host_port host (format_uint16 port)) pipe)) [
        | inl good ↦ (host, port, refl, (text_eq_iff _ pipe).0 good, ground arith)
        | inr bad ↦ absurd (other wrong_destination (ground arith))
      ]

  -- A request inside a pipe that is not refused is no CONNECT, and its host and port are the pipe's
  -- own. Its scheme is http or https: over HTTP/2 what its header states, and https without the header,
  -- and over HTTP/1.1 that of its absolute form. In a pipe to the probe's authority it is answered
  -- here, with the readiness for a GET of the probe's path and a 404 otherwise; in any other it goes
  -- to the pipe's destination, in that scheme and without the header that stated it.
  pub forward_sound :
      (r : Inner) (pipe : Text) (out : Forwarded)
      → forward r pipe ≡ out
      → ((reason : Reason) → out ≢ refuses reason)
      → (r.method ≢ method_connect)
        × (scheme : Text) × IsForPipe r pipe scheme
        × Delivered r pipe scheme out
  unfolding forward forward_scheme
  forward_sound r pipe out e other = elim (Bool-cases (text_eq r.method method_connect)) [
    | inl connects ↦ absurd (other protocol_error (ground arith))
    | inr plain ↦ elim (Option-cases (request_scheme r)) [
      | inl unstated ↦ absurd (other protocol_error (ground arith))
      | inr (scheme, stated) ↦
          let named = authority std scheme (host_parts r.host).0 (host_parts r.host).1 in
          let (host, port, names, same, delivered) =
            deliver_to-named r scheme pipe named out (ground arith) other in
          (
            ground (arith, text_eq_iff r.method method_connect),
            scheme,
            record {
              has = request_scheme-HasScheme r scheme stated;
              web = request_scheme-web r scheme stated;
              host = host;
              port = port;
              names = names;
              same = same;
            },
            deliver-cases r scheme pipe out delivered,
          )
    ]
  ]
