-- ===== src/Upstream/Forward.antt =====
-- internal/upstream/upstream.go and streamcap.go: one request and its answer.
pub mod Passed
pub mod Sent
pub mod Sound
use traversal_connector.Common.{
  ℕ, ◌*◌, ◌≤◌, ◌≡◌, ◌≢◌, refl, sym, ap, ◌∙◌, subst, ◌⊎◌, inl, inr, Bool, true, false, not, ◌&&◌,
  ◌||◌, Option, none, some, List, [], ◌∷◌, ltb, ◌==◌, arith, if◌then◌else◌, length, length-take,
  take, Text, codes, text_eq, is_empty, http, Bool-cases, Option-cases,
}
use traversal_connector.Common.Int.{ℤ, pos, ltb_ℤ}
use traversal_connector.RawPipe
use traversal_connector.RawPipe.{Reason, redaction_unsupported, upstream_failed}
use traversal_connector.Redact.{CompiledRule, has_rules_for_host}
use traversal_connector.Upstream.{
  ContentCoding, Refusal, Body, whole, Response, Library, Client, Outcome, sent, streamed, refused,
  not_encoded, cancelled, Slot, capacity, media_type_of, is_grpc, unredactable_request,
  strip_traversal_headers, respond, classify_content_coding,
}
use traversal_connector.Upstream.Covered.{Redacted, respond_covered-Safe, respond-streamed}

-- A request to forward; a content length that is not known is negative.
pub record Request : Type 0 where
  pub upgrade : Text
  pub content_type : Text
  pub content_length : ℤ
  pub body : Option Text

-- Which of the client's transports sends a request.
pub data Transport : Type 0 where
  auto h2c http1 : Transport

-- What goes upstream: a body past the limit of http.MaxBytesReader ends in an error after it.
pub record Outgoing : Type 0 where
  pub transport : Transport
  pub scheme : Text
  pub host : Text
  pub body : Text
  pub cut : Bool

-- How the round trip ends: with the reason of an error that has one, with another error, or with
-- a response.
pub data Reply : Type 0 where
  dial_refused : Reason → Reply
  failed : Reply
  answered : Response → Reply

-- What capStream does to a response.
pub data Cap : Type 0 where
  uncapped capped_conn : Cap
  capped_body : Bool → Cap

-- What the caller gets: a 413, a refusal, a response, or nothing, for it is gone.
pub data Answer : Type 0 where
  too_large no_answer : Answer
  refuses : Reason → Answer
  answers : Response → Cap → Answer

-- The part of the client that the request side reads: the limit of a request's body, 0 for none,
-- and whether a stream has a cap.
pub record Limits : Type 0 where
  pub max_request : ℕ
  pub stream_cap : Bool

-- fail, of the reason of the error, and whether the caller is gone.
unfoldable pub fail : Bool → Reason → Answer
fail true reason = no_answer
fail false reason = refuses reason

abbrev pub reason_of : Refusal → Reason
reason_of capacity = RawPipe.capacity
reason_of _ = redaction_unsupported

abbrev pub is_empty_list {ℓ} : {A : Type ℓ} → List A → Bool
is_empty_list [] = true
is_empty_list (x ∷ xs) = false

module _ (lib : Library) (limits : Limits) where
  open limits use {max_request, stream_cap}

  -- A request whose stated length is past the limit.
  abbrev pub oversized : Request → Bool
  oversized r = elim r.body [
    | none ↦ false
    | some body ↦ ltb 0 max_request && ltb_ℤ (pos max_request) r.content_length
  ]

  -- http.MaxBytesReader, where there is a limit and a body.
  abbrev pub limited : Text → Text × Bool
  limited body =
      if ltb 0 max_request && ltb max_request (length body)
      then (take max_request body, true)
      else (body, false)

  abbrev pub body_of : Option Text → Text × Bool
  body_of none = ([], false)
  body_of (some body) = limited body

  abbrev pub transport_of : Client lib → Request → Text → Transport
  transport_of c r scheme =
      if not (is_empty r.upgrade)
      then http1
      else if text_eq scheme http && is_grpc lib c r.content_type
      then h2c
      else auto

  abbrev pub outgoing : Client lib → Request → Text → Text → Outgoing
  outgoing c r scheme target = record {
    transport = transport_of c r scheme;
    scheme = scheme;
    host = target;
    body = (body_of r.body).0;
    cut = (body_of r.body).1;
  }

  -- capStream.
  unfoldable pub cap_stream : Client lib → Response → Cap
  cap_stream c resp =
      if not stream_cap || is_empty_list c.rules
      then uncapped
      else if resp.status == 101
      then capped_conn
      else if text_eq (media_type_of lib c resp.content_type) (codes "text/event-stream")
          || is_grpc lib c (media_type_of lib c resp.content_type)
      then capped_body (is_grpc lib c (media_type_of lib c resp.content_type))
      else uncapped

  unfoldable pub on_outcome : Client lib → Bool → Outcome → Answer
  unfolding fail cap_stream
  on_outcome c gone (sent s) = answers s uncapped
  on_outcome c gone (streamed s) = answers s (cap_stream c s)
  on_outcome c gone (refused x) = fail gone (reason_of x)
  on_outcome c gone not_encoded = fail gone upstream_failed
  on_outcome c gone cancelled = no_answer

  unfoldable pub on_reply : Client lib → Text → Bool → Slot → Bool → Reply → Answer
  unfolding on_outcome
  on_reply c host covered slot gone (dial_refused reason) = fail gone reason
  on_reply c host covered slot gone failed = fail gone upstream_failed
  on_reply c host covered slot gone (answered resp) =
      on_outcome c gone (respond lib c resp host covered slot)

  -- Forward to a target, a host and a port, and its host alone: what it sends upstream, if anything,
  -- and what the caller gets. `rules` are the rules in
  -- force when the request comes in, those of the client the ones when its response does; `trip` is
  -- the transport, `slot` and `gone` what becomes of the wait for a slot and of the caller.
  unfoldable pub forward_covered :
      Client lib
      → (Outgoing → Reply)
      → Request
      → Text
      → Text
      → Text
      → Bool
      → Slot
      → Bool
      → Option Outgoing × Answer
  unfolding on_reply
  forward_covered c trip r scheme target host covered slot gone =
      if covered && unredactable_request lib c r.upgrade r.content_type
      then (none, fail gone redaction_unsupported)
      else (
        some (outgoing c r scheme target),
        on_reply c host covered slot gone (trip (outgoing c r scheme target)),
      )

  unfoldable pub forward :
      List (CompiledRule lib.redact.Regex)
      → Client lib
      → (Outgoing → Reply)
      → Request
      → Text
      → Text
      → Text
      → Slot
      → Bool
      → Option Outgoing × Answer
  unfolding forward_covered
  forward rules c trip r scheme target host slot gone =
      if oversized r
      then (none, too_large)
      else forward_covered c trip r scheme target host (has_rules_for_host lib.redact rules host)
          slot gone
