-- ===== src/Upstream.antt =====
-- internal/upstream/redact.go and encoding.go: what becomes of the response to a request.
pub mod Covered
pub mod Forward
mod Tests
use traversal_connector.Common.{
  ℕ, Bool, true, false, not, ◌&&◌, ◌||◌, Option, none, some, List, [], ◌∷◌, ◌++◌, leb, ltb, ◌==◌,
  if◌then◌else◌, Text, codes, text_eq, is_empty, any, keep, map, length, has_prefix, has_suffix,
  lower, take, is_some,
}
use traversal_connector.Redact
use traversal_connector.Redact.{CompiledRule, apply}
use traversal_connector.Redact.Walk.{Json, apply_json}

pub data ContentCoding : Type 0 where
  identity gzip deflate zstd br other_coding : ContentCoding

unfoldable pub named_coding : Text → ContentCoding
named_coding t =
    if text_eq t (codes "identity")
    then identity
    else if text_eq t (codes "gzip")
    then gzip
    else if text_eq t (codes "deflate")
    then deflate
    else if text_eq t (codes "zstd")
    then zstd
    else if text_eq t (codes "br")
    then br
    else other_coding

unfoldable pub coding_of : List Text → ContentCoding
unfolding named_coding
coding_of [] = identity
coding_of (t ∷ []) = named_coding t
coding_of (t ∷ u ∷ ts) = other_coding

-- Why a response is dropped.
pub data Refusal : Type 0 where
  unredactable_content unsupported_encoding partial_content body_too_large decoded_too_large :
      Refusal
  decode_failed no_end malformed_json capacity : Refusal

-- The reading of the body: whole, or stopped by the timer or by an error of the connection.
pub data Body : Type 0 where
  whole : Text → Body
  timed_out broken : Body

pub record Response : Type 0 where
  pub status : ℕ
  -- The values of each header, by its canonical name, and the headers under other names.
  pub content_encoding : List Text
  pub content_type : Text
  pub accept_ranges : Bool
  pub traversal_headers : List Text
  pub content_length : Option ℕ
  -- The headers that describe the bytes of the body are still there.
  pub content_dependent : Bool
  pub trailer : Bool
  pub redacted_header : Bool
  pub body : Body

-- What the client takes of the libraries: `fields` is the tokens of a header, split at commas,
-- trimmed and in lower case, without the empty ones; `media_type` is none unless the media type can
-- be read. `gunzip` is none for a stream that is no gzip or ends early.
pub record Library : Type 1 where
  pub redact : Redact.Library
  pub fields : List Text → List Text
  pub media_type : Text → Option Text
  pub gunzip : Text → Option Text
  pub gzip_of : Text → Option Text
  pub decode : Text → Option Json
  pub encode : Json → Text

pub record Client (lib : Library) : Type 0 where
  pub rules : List (CompiledRule lib.redact.Regex)
  pub max_body : ℕ
  pub max_decoded : ℕ

-- How a response ends: sent, dropped with a reason, or dropped for an error of the encoder.
pub data Outcome : Type 0 where
  sent : Response → Outcome
  streamed : Response → Outcome
  refused : Refusal → Outcome
  not_encoded cancelled : Outcome

-- readLimited; 0 stands for every limit that is not positive.
unfoldable pub read_limited : ℕ → Text → Option Text
read_limited limit s = if ltb 0 limit && ltb limit (length s) then none else some s

unfoldable pub is_json : Text → Bool
unfolding text_eq has_suffix
is_json mt =
    text_eq mt (codes "application/json")
    || text_eq mt (codes "text/json")
    || has_suffix mt (codes "+json")

unfoldable pub redactable : Text → Bool
unfolding is_json
redactable mt =
    is_empty mt
    || has_prefix mt (codes "text/")
    || is_json mt
    || has_suffix mt (codes "+xml")
    || any (text_eq mt) (
        codes "application/xml"
        ∷ codes "application/javascript"
        ∷ codes "application/x-www-form-urlencoded"
        ∷ codes "application/yaml"
        ∷ codes "application/x-ndjson"
        ∷ [])

-- stripTraversalHeaders, with strings.EqualFold on ASCII.
unfoldable pub is_traversal_header : Text → Bool
is_traversal_header name = text_eq (map lower (take 12 name)) (codes "x-traversal-")

unfoldable pub strip_traversal_headers : Response → Response
unfolding is_traversal_header
strip_traversal_headers r = record r {
  traversal_headers = keep (λ n. not (is_traversal_header n)) r.traversal_headers;
  redacted_header = false;
}

unfoldable pub replace_body : Response → Text → Bool → Bool → Response
replace_body r body redacted changed = record r {
  trailer = false;
  redacted_header = redacted || r.redacted_header;
  content_dependent = not changed && r.content_dependent;
  body = whole body;
  content_length = if is_empty body then r.content_length else some (length body);
}

-- The slot of a redaction: free, or none within the timeout, or the request was given up.
pub data Slot : Type 0 where
  acquired none_free given_up : Slot

module _ (lib : Library) (c : Client lib) where
  open lib use {fields, media_type, gunzip, gzip_of, decode, encode}

  pub classify_content_coding : List Text → ContentCoding
  unfolding coding_of
  classify_content_coding values = coding_of (fields values)

  pub media_type_of : Text → Text
  media_type_of content_type = elim (media_type content_type) [ none ↦ [] | some mt ↦ mt ]

  unfoldable pub is_grpc : Text → Bool
  unfolding media_type_of
  is_grpc content_type = has_prefix (media_type_of content_type) (codes "application/grpc")

  -- unredactableRequest: whether a request is refused before it is sent.
  pub unredactable_request : Text → Text → Bool
  unfolding is_grpc
  unredactable_request upgrade content_type = not (is_empty upgrade) || is_grpc content_type

  -- Client.redact, while the rules stay the same between ApplyJSON and Apply, each of which loads them;
  -- none is the error of ApplyJSON.
  redact_bytes : Text → Text × Bool → Text × Bool
  redact_bytes host (body, changed) =
      let (out, byte_changed) = apply lib.redact c.rules host body in (out, changed || byte_changed)

  pub redact : Text → Text → Text → Option (Text × Bool)
  unfolding redact_bytes
  redact host content_type body =
      if is_json (media_type_of content_type)
      then elim (apply_json lib.redact decode encode c.rules host body) [
        | none ↦ none
        | some r ↦ some (redact_bytes host r)
      ]
      else some (redact_bytes host (body, false))

  -- The end of buffer, for a body of one of the two codings.
  send_identity : Response → Text → Option (Text × Bool) → Outcome
  send_identity r body none = refused malformed_json
  send_identity r body (some (out, changed)) =
      sent (replace_body r out changed (not (text_eq out body)))

  send_gzip : Response → Option (Text × Bool) → Outcome
  send_gzip r none = refused malformed_json
  send_gzip r (some (out, changed)) = elim (gzip_of out) [
    | none ↦ not_encoded
    | some final ↦ sent (replace_body r final changed true)
  ]

  buffer_plain : Response → Text → Text → Outcome
  unfolding send_identity
  buffer_plain r host body =
      if is_empty body
      then sent (replace_body r body false false)
      else send_identity r body (redact host r.content_type body)

  buffer_gzip : Response → Text → Text → Option Text → Outcome
  unfolding send_gzip
  buffer_gzip r host body none = refused decode_failed
  buffer_gzip r host body (some plain) =
      if not (is_some (read_limited c.max_decoded plain))
      then refused decoded_too_large
      else if is_empty plain
      then sent (replace_body r body false false)
      else send_gzip r (redact host r.content_type plain)

  buffer_coded : Response → Text → Text → ContentCoding → Outcome
  unfolding buffer_plain buffer_gzip
  buffer_coded r host body identity = buffer_plain r host body
  buffer_coded r host body gzip = buffer_gzip r host body (gunzip body)
  buffer_coded r host body _ = refused unsupported_encoding

  buffer : Response → Text → ContentCoding → Body → Outcome
  unfolding buffer_coded
  buffer r host coding timed_out = refused no_end
  buffer r host coding broken = refused decode_failed
  buffer r host coding (whole body) =
      if not (is_some (read_limited c.max_body body))
      then refused body_too_large
      else if is_empty body
      then sent (replace_body r body false false)
      else buffer_coded r host body coding

  respond_slot : Response → Text → ContentCoding → Slot → Outcome
  unfolding buffer
  respond_slot r host coding none_free = refused capacity
  respond_slot r host coding given_up = cancelled
  respond_slot r host coding acquired = buffer r host coding r.body

  respond_covered : Response → Text → ContentCoding → Slot → Outcome
  unfolding respond_slot
  respond_covered r host coding slot =
      let mt = media_type_of r.content_type in
      if r.status == 101
        || text_eq mt (codes "text/event-stream")
        || is_grpc mt
        || not (redactable mt)
      then refused unredactable_content
      else if r.status == 206
      then refused partial_content
      else respond_slot r host coding slot

  pub respond : Response → Text → Bool → Slot → Outcome
  unfolding respond_covered
  respond r host covered slot =
      let s = strip_traversal_headers r in
      if covered
      then respond_covered (record s { accept_ranges = false }) host
          (classify_content_coding r.content_encoding) slot
      else streamed s
