-- ===== src/Upstream/Forward/Sound.antt =====
-- What goes upstream, and what comes back.
use traversal_connector.Common.{
  ◌≡◌, ◌≢◌, refl, sym, ap, ◌∙◌, subst, Bool, true, false, ◌&&◌, Option, none, some, List, arith,
  if◌then◌else◌, Text,
}
use traversal_connector.RawPipe.{Reason, redaction_unsupported, upstream_failed}
use traversal_connector.Redact.{CompiledRule, has_rules_for_host}
use traversal_connector.Upstream.{
  whole, Response, Library, Client, Outcome, sent, streamed, refused, not_encoded, cancelled, Slot,
  unredactable_request, strip_traversal_headers, respond, classify_content_coding,
}
use traversal_connector.Upstream.Covered.{Redacted, respond_covered-Safe, respond-streamed}
use traversal_connector.Upstream.Forward.{
  Request, Outgoing, Reply, dial_refused, failed, answered, Cap, uncapped, Answer, too_large,
  answers, Limits, fail, reason_of, oversized, outgoing, cap_stream, on_outcome, on_reply,
  forward_covered, forward,
}
use traversal_connector.Upstream.Forward.Passed.{
  PassedOn, CapFor, strip-PassedOn, cap_stream-CapFor,
}
use traversal_connector.Upstream.Forward.Sent.{Goes, outgoing-Goes}

module _ (lib : Library) (limits : Limits) where
  open limits use {max_request}

  -- What an answer with a response comes from.
  pub record From (c : Client lib) (host : Text) (covered : Bool) (resp s : Response) (cap : Cap)
      : Type 0 where
    pub when_covered :
        covered ≡ true
        → (cap ≡ uncapped)
          × (body : Text) × (final : Text) × (resp.body ≡ whole body)
          × (s.body ≡ whole final)
          × Redacted lib c host resp.content_type
              (classify_content_coding lib c resp.content_encoding)
              body
              final
    pub when_not : covered ≡ false → PassedOn lib limits resp s × CapFor lib limits c s cap

  fail-answers :
      (gone : Bool) (reason : Reason) (s : Response) (cap : Cap) → fail gone reason ≢ answers s cap
  unfolding fail
  fail-answers true reason s cap e = cc
  fail-answers false reason s cap e = cc

  on_outcome-From :
      (c : Client lib) (host : Text) (covered gone : Bool) (slot : Slot) (resp s : Response)
      (cap : Cap) (o : Outcome)
      → respond lib c resp host covered slot ≡ o
      → on_outcome lib limits c gone o ≡ answers s cap
      → From c host covered resp s cap
  unfolding on_outcome respond
  on_outcome-From c host true gone slot resp s cap (sent t) e q =
      let same : t ≡ s = ground arith in
      let plain : uncapped ≡ cap = ground arith in
      let (body, final, b, f, safe) =
        respond_covered-Safe lib c resp s host slot (e ∙ ap sent same) in
      record { when_covered = λ _. (sym plain, body, final, b, f, safe); when_not = λ x. cc }
  on_outcome-From c host false gone slot resp s cap (sent t) e q = absurd (ground arith)
  on_outcome-From c host true gone slot resp s cap (streamed t) e q =
      absurd (respond-streamed lib c resp t host slot e)
  on_outcome-From c host false gone slot resp s cap (streamed t) e q =
      let same : t ≡ s = ground arith in
      let capped : cap_stream lib limits c s ≡ cap = ground arith in
      let stripped : strip_traversal_headers resp ≡ s = ground arith in
      record {
        when_covered = λ x. cc;
        when_not = λ _. (
          subst (PassedOn lib limits resp) stripped (strip-PassedOn lib limits resp),
          subst (CapFor lib limits c s) capped (cap_stream-CapFor lib limits c s),
        );
      }
  on_outcome-From c host covered gone slot resp s cap (refused x) e q =
      absurd (fail-answers gone (reason_of x) s cap q)
  on_outcome-From c host covered gone slot resp s cap not_encoded e q =
      absurd (fail-answers gone upstream_failed s cap q)
  on_outcome-From c host covered gone slot resp s cap cancelled e q = cc

  -- A response goes back only as an answer to what went upstream.
  on_reply-From :
      (c : Client lib) (host : Text) (covered gone : Bool) (slot : Slot) (reply : Reply)
      (s : Response) (cap : Cap)
      → on_reply lib limits c host covered slot gone reply ≡ answers s cap
      → (resp : Response) × (reply ≡ answered resp) × From c host covered resp s cap
  unfolding on_reply
  on_reply-From c host covered gone slot (dial_refused reason) s cap q =
      absurd (fail-answers gone reason s cap q)
  on_reply-From c host covered gone slot failed s cap q =
      absurd (fail-answers gone upstream_failed s cap q)
  on_reply-From c host covered gone slot (answered resp) s cap q = (
    resp,
    refl,
    on_outcome-From c host covered gone slot resp s cap (respond lib c resp host covered slot) refl
        q,
  )

  -- What a request does: what went out, and what came back.
  pub record Forwards (c : Client lib) (trip : Outgoing → Reply) (r : Request)
      (scheme target host : Text) (covered : Bool) (out : Option Outgoing) (a : Answer)
      : Type 0 where
    pub goes :
        (o : Outgoing)
        → out ≡ some o
        → Goes lib limits c r scheme target o
          × ((covered && unredactable_request lib c r.upgrade r.content_type) ≡ false)
    pub comes :
        (s : Response) (cap : Cap)
        → a ≡ answers s cap
        → (o : Outgoing) × (resp : Response) × (out ≡ some o)
          × (trip o ≡ answered resp)
          × From c host covered resp s cap

  nothing-Forwards :
      (c : Client lib) (trip : Outgoing → Reply) (r : Request) (scheme target host : Text)
      (covered : Bool) (a : Answer)
      → ((s : Response) (cap : Cap) → a ≢ answers s cap)
      → Forwards c trip r scheme target host covered none a
  nothing-Forwards c trip r scheme target host covered a h = record {
    goes = λ o e. absurd (ground arith);
    comes = λ s cap e. absurd (h s cap e);
  }

  gated-Forwards :
      (c : Client lib) (trip : Outgoing → Reply) (r : Request) (scheme target host : Text)
      (covered : Bool) (slot : Slot) (gone bad : Bool)
      → (covered && unredactable_request lib c r.upgrade r.content_type) ≡ bad
      → let out = outgoing lib limits c r scheme target in
        let x : Option Outgoing × Answer =
          if bad
          then (none, fail gone redaction_unsupported)
          else (some out, on_reply lib limits c host covered slot gone (trip out)) in
        Forwards c trip r scheme target host covered x.0 x.1
  gated-Forwards c trip r scheme target host covered slot gone true e =
      nothing-Forwards c trip r scheme target host covered (fail gone redaction_unsupported)
        (fail-answers gone redaction_unsupported)
  gated-Forwards c trip r scheme target host covered slot gone false e =
      let out = outgoing lib limits c r scheme target in
      record {
        goes = λ o q.
            let same : out ≡ o = ground arith in
            (
              subst (Goes lib limits c r scheme target) same
                  (outgoing-Goes lib limits c r scheme target),
              e,
            );
        comes = λ s cap q.
            let (resp, replied, from) = on_reply-From c host covered gone slot (trip out) s cap q in
            (out, resp, refl, replied, from);
      }

  sized-Forwards :
      (c : Client lib) (trip : Outgoing → Reply) (r : Request) (scheme target host : Text)
      (covered : Bool) (slot : Slot) (gone over : Bool)
      → let x : Option Outgoing × Answer =
          if over
          then (none, too_large)
          else forward_covered lib limits c trip r scheme target host covered slot gone in
        Forwards c trip r scheme target host covered x.0 x.1
  unfolding forward_covered
  sized-Forwards c trip r scheme target host covered slot gone true =
      nothing-Forwards c trip r scheme target host covered too_large (λ s cap e. cc)
  sized-Forwards c trip r scheme target host covered slot gone false =
      gated-Forwards c trip r scheme target host covered slot gone
        (covered && unredactable_request lib c r.upgrade r.content_type) refl

  -- What a request does, with the rules in force when it comes in. Upstream goes one request at
  -- most, and none to a covered host whose answer could not be redacted: to the host and in the scheme
  -- that it is forwarded to, over HTTP/1.1 if it is an upgrade, over HTTP/2 in the clear if it is gRPC
  -- over http, and as the server has it otherwise, with its body, or as much of it as the limit. What
  -- comes back with a response is the response to that request: for a covered host its whole body
  -- redacted, or nothing or the coding of nothing, and for another host as it came, but for the
  -- headers whose names start with X-Traversal-, in any case. The stream of such a host, which is a
  -- connection that was taken over, server-sent events or gRPC, is cut off where there is a cap and
  -- a rule, and nothing else is.
  pub forward-Forwards :
      (rules : List (CompiledRule lib.redact.Regex)) (c : Client lib) (trip : Outgoing → Reply)
      (r : Request) (scheme target host : Text) (slot : Slot) (gone : Bool)
      → let x = forward lib limits rules c trip r scheme target host slot gone in
        Forwards c trip r scheme target host (has_rules_for_host lib.redact rules host) x.0 x.1
  unfolding forward
  forward-Forwards rules c trip r scheme target host slot gone =
      sized-Forwards c trip r scheme target host (has_rules_for_host lib.redact rules host) slot
        gone (oversized lib limits r)
