-- ===== src/Upstream/Tests.antt =====
-- A response that is sent redacted, one that is refused, and the witness of the theorem on them.
use traversal_connector.Common.{
  ◌≡◌, refl, [], ◌∷◌, none, some, true, false, Text, codes, text_eq, if◌then◌else◌, has_prefix,
  has_suffix, Option,
}
use traversal_connector.Hostname.{trim_dot}
use traversal_connector.Redact.{
  CompiledRule, apply, apply_from, apply_one_rule, applies_to_host, any_matches, canonical_host,
  has_rules_for_host, idna_ascii_host, is_ascii,
}
use traversal_connector.Upstream.{
  Response, whole, Library, Client, sent, acquired, respond, respond_covered, respond_slot,
  strip_traversal_headers, is_traversal_header, classify_content_coding, coding_of, named_coding,
  media_type_of, is_grpc, redactable, is_json, buffer, buffer_coded, buffer_gzip, read_limited,
  redact, redact_bytes, unredactable_request, send_gzip, replace_body,
}
use traversal_connector.Common.Int.{negsuc}
use traversal_connector.Upstream.Forward.{
  Request, auto, Outgoing, Reply, answered, Answer, Limits, forward,
}
use traversal_connector.Upstream.Forward.Sound.{Forwards, forward-Forwards}
use traversal_connector.Upstream.Covered.{Redacted, respond_covered-Safe}

-- A gzip stream is a `z` and its content.
abbrev gunzip : Text → Option Text
gunzip [] = none
gunzip (c ∷ s) = some s

abbrev library : Library
library = record {
  redact = record {
    Regex = Text;
    compile = some;
    matches = text_eq;
    replace_all = λ re s r. if text_eq re s then r else s;
    idna = some;
    to_lower = λ s. s;
  };
  fields = λ values. values;
  media_type = some;
  gunzip = gunzip;
  gzip_of = λ s. some (b'z' ∷ s);
  decode = λ s. none;
  encode = λ v. [];
}

abbrev secret : CompiledRule Text
secret = record {
  name = codes "secret";
  re = codes "key";
  replacement = codes "[REDACTED]";
  structured = false;
  redact_fields = none;
  skip_fields = none;
  host_matchers = none;
}

abbrev client : Client library
client = record { rules = secret ∷ []; max_body = 100; max_decoded = 100 }

abbrev response : Response
response = record {
  status = 200;
  content_encoding = codes "gzip" ∷ [];
  content_type = codes "text/plain";
  accept_ranges = true;
  traversal_headers = codes "X-Traversal-Redacted" ∷ codes "Server" ∷ [];
  content_length = some 4;
  content_dependent = true;
  trailer = true;
  redacted_header = true;
  body = whole (codes "zkey");
}

abbrev redacted : Response
redacted = record {
  status = 200;
  content_encoding = codes "gzip" ∷ [];
  content_type = codes "text/plain";
  accept_ranges = false;
  traversal_headers = codes "Server" ∷ [];
  content_length = some 11;
  content_dependent = false;
  trailer = false;
  redacted_header = true;
  body = whole (codes "z[REDACTED]");
}

respond_test : respond library client response (codes "db") true acquired ≡ sent redacted
unfolding respond respond_covered respond_slot strip_traversal_headers is_traversal_header
    classify_content_coding coding_of named_coding media_type_of is_grpc redactable is_json buffer
    buffer_coded buffer_gzip read_limited redact redact_bytes send_gzip replace_body text_eq
    has_prefix has_suffix apply apply_from apply_one_rule applies_to_host any_matches canonical_host
    idna_ascii_host is_ascii trim_dot
respond_test = refl

respond_covered-Safe_example :
    (body : Text) × (final : Text) × (whole (codes "zkey") ≡ whole body)
    × (whole (codes "z[REDACTED]") ≡ whole final)
    × Redacted library client
        (codes "db")
        (codes "text/plain")
        (classify_content_coding library client (codes "gzip" ∷ []))
        body
        final
respond_covered-Safe_example =
    respond_covered-Safe library client response redacted (codes "db") acquired respond_test

abbrev limits : Limits
limits = record { max_request = 10; stream_cap = true }

abbrev a_post : Request
a_post = record {
  upgrade = [];
  content_type = codes "text/plain";
  content_length = negsuc 0;
  body = some (codes "twelve bytes");
}

abbrev from_db : Outgoing → Reply
from_db o = answered response

-- Two bytes of the request do not go out.
a_post_test :
    (forward library limits
      (secret ∷ [])
      client
      from_db
      a_post
      (codes "https")
      (codes "db:443")
      (codes "db")
      acquired
      false).0
    ≡ some (record {
      transport = auto;
      scheme = codes "https";
      host = codes "db:443";
      body = codes "twelve byt";
      cut = true;
    })
unfolding forward has_rules_for_host unredactable_request has_prefix text_eq
a_post_test = refl

abbrev post_result : Option Outgoing × Answer
post_result =
    forward library limits (secret ∷ []) client from_db a_post (codes "https") (codes "db:443")
      (codes "db") acquired false

forward-Forwards_example :
    Forwards library limits client from_db a_post
      (codes "https")
      (codes "db:443")
      (codes "db")
      (has_rules_for_host library.redact (secret ∷ []) (codes "db"))
      post_result.0
      post_result.1
forward-Forwards_example =
    forward-Forwards library limits (secret ∷ []) client from_db a_post (codes "https")
      (codes "db:443") (codes "db") acquired false
