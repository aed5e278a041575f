-- ===== src/Upstream/Covered.antt =====
-- What leaves the connector for a covered host.
use traversal_connector.Common.{
  Bool, true, false, not, ◌||◌, Option, none, some, [], ◌∷◌, if◌then◌else◌, Text, text_eq, is_empty,
  ◌≡◌, ◌≢◌, refl, sym, inl, inr, Option-cases, is_some, ◌==◌, subst, codes,
}
use traversal_connector.Upstream.{
  ContentCoding, identity, gzip, deflate, zstd, br, other_coding, Refusal, Body, whole, timed_out,
  broken, Response, Library, Client, Outcome, sent, streamed, refused, not_encoded,
  decoded_too_large, body_too_large, cancelled, read_limited, replace_body, Slot, acquired,
  none_free, given_up, classify_content_coding, redact, send_identity, send_gzip, buffer_plain,
  buffer_gzip, buffer_coded, buffer, respond_slot, respond_covered, capacity, unredactable_content,
  partial_content, media_type_of, is_grpc, redactable, respond, strip_traversal_headers,
}

module _ (lib : Library) (c : Client lib) where
  -- The body that was read, and the one that is sent: nothing, or a redaction, in the coding in
  -- which it came.
  pub data Redacted (host content_type : Text) (coding : ContentCoding) (body : Text)
      : Text → Type 0 where
    nothing : body ≡ [] → Redacted host content_type coding body []
    coded_nothing :
        coding ≡ gzip → lib.gunzip body ≡ some [] → Redacted host content_type coding body body
    plain :
        (out : Text) (hit : Bool)
        → coding ≡ identity
        → redact lib c host content_type body ≡ some (out, hit)
        → Redacted host content_type coding body out
    coded :
        (plaintext out final : Text) (hit : Bool)
        → coding ≡ gzip
        → lib.gunzip body ≡ some plaintext
        → redact lib c host content_type plaintext ≡ some (out, hit)
        → lib.gzip_of out ≡ some final
        → Redacted host content_type coding body final

  SafeBody : Text → Text → ContentCoding → Text → Outcome → Type 0
  SafeBody host content_type coding body (sent s) =
      (final : Text) × (s.body ≡ whole final) × Redacted host content_type coding body final
  SafeBody host content_type coding body (streamed s) = ⊥
  SafeBody host content_type coding body _ = Unit

  is_empty_nil : (s : Text) → is_empty s ≡ true → s ≡ []
  is_empty_nil [] h = refl
  is_empty_nil (a ∷ s) h = cc

  send_identity-SafeBody :
      (r : Response) (host body : Text) (o : Option (Text × Bool))
      → redact lib c host r.content_type body ≡ o
      → SafeBody host r.content_type identity body (send_identity lib c r body o)
  unfolding SafeBody send_identity replace_body
  send_identity-SafeBody r host body none e = tt
  send_identity-SafeBody r host body (some (out, hit)) e = (out, refl, plain out hit refl e)

  send_gzip-SafeBody :
      (r : Response) (host body plaintext : Text) (o : Option (Text × Bool))
      → lib.gunzip body ≡ some plaintext
      → redact lib c host r.content_type plaintext ≡ o
      → SafeBody host r.content_type gzip body (send_gzip lib c r o)
  unfolding SafeBody send_gzip replace_body
  send_gzip-SafeBody r host body plaintext none u e = tt
  send_gzip-SafeBody r host body plaintext (some (out, hit)) u e =
      elim (Option-cases (lib.gzip_of out)) [
        | inl fault ↦
            let e' : send_gzip lib c r (some (out, hit)) ≡ not_encoded =
              rw (send_gzip, fault) refl in
            subst (SafeBody host r.content_type gzip body) (sym e') tt
        | inr (final, fine) ↦
            let e' : send_gzip lib c r (some (out, hit)) ≡ sent (replace_body r final hit true) =
              rw (send_gzip, fine) refl in
            subst (SafeBody host r.content_type gzip body) (sym e')
              (final, refl, coded plaintext out final hit refl u e fine)
      ]

  buffer_plain-SafeBody :
      (r : Response) (host body : Text)
      → SafeBody host r.content_type identity body (buffer_plain lib c r host body)
  unfolding buffer_plain SafeBody replace_body
  buffer_plain-SafeBody r host [] = ([], refl, nothing refl)
  buffer_plain-SafeBody r host (a ∷ s) =
      send_identity-SafeBody r host (a ∷ s) (redact lib c host r.content_type (a ∷ s)) refl

  gunzipped-SafeBody :
      (r : Response) (host body plaintext : Text) (fits : Bool)
      → lib.gunzip body ≡ some plaintext
      → SafeBody host r.content_type gzip body (
          if not fits
          then refused decoded_too_large
          else if is_empty plaintext
          then sent (replace_body r body false false)
          else send_gzip lib c r (redact lib c host r.content_type plaintext))
  unfolding SafeBody replace_body
  gunzipped-SafeBody r host body plaintext false u = tt
  gunzipped-SafeBody r host body [] true u = (body, refl, coded_nothing refl u)
  gunzipped-SafeBody r host body (a ∷ s) true u =
      send_gzip-SafeBody r host body (a ∷ s) (redact lib c host r.content_type (a ∷ s)) u refl

  buffer_gzip-SafeBody :
      (r : Response) (host body : Text) (o : Option Text)
      → lib.gunzip body ≡ o
      → SafeBody host r.content_type gzip body (buffer_gzip lib c r host body o)
  unfolding buffer_gzip SafeBody
  buffer_gzip-SafeBody r host body none u = tt
  buffer_gzip-SafeBody r host body (some plaintext) u =
      gunzipped-SafeBody r host body plaintext (is_some (read_limited c.max_decoded plaintext)) u

  buffer_coded-SafeBody :
      (r : Response) (host body : Text) (coding : ContentCoding)
      → SafeBody host r.content_type coding body (buffer_coded lib c r host body coding)
  unfolding buffer_coded SafeBody
  buffer_coded-SafeBody r host body identity = buffer_plain-SafeBody r host body
  buffer_coded-SafeBody r host body gzip = buffer_gzip-SafeBody r host body (lib.gunzip body) refl
  buffer_coded-SafeBody r host body deflate = tt
  buffer_coded-SafeBody r host body zstd = tt
  buffer_coded-SafeBody r host body br = tt
  buffer_coded-SafeBody r host body other_coding = tt

  read-SafeBody :
      (r : Response) (host body : Text) (coding : ContentCoding) (fits : Bool)
      → SafeBody host r.content_type coding body (
          if not fits
          then refused body_too_large
          else if is_empty body
          then sent (replace_body r body false false)
          else buffer_coded lib c r host body coding)
  unfolding SafeBody replace_body
  read-SafeBody r host body coding false = tt
  read-SafeBody r host [] coding true = ([], refl, nothing refl)
  read-SafeBody r host (a ∷ s) coding true = buffer_coded-SafeBody r host (a ∷ s) coding

  -- What was read whole is sent redacted, or not sent.
  SafeWhole : Text → Text → ContentCoding → Body → Outcome → Type 0
  SafeWhole host content_type coding (whole body) o = SafeBody host content_type coding body o
  SafeWhole host content_type coding b (sent s) = ⊥
  SafeWhole host content_type coding b (streamed s) = ⊥
  SafeWhole host content_type coding b _ = Unit

  buffer-SafeWhole :
      (r : Response) (host : Text) (coding : ContentCoding) (b : Body)
      → SafeWhole host r.content_type coding b (buffer lib c r host coding b)
  unfolding buffer SafeWhole
  buffer-SafeWhole r host coding (whole body) =
      read-SafeBody r host body coding (is_some (read_limited c.max_body body))
  buffer-SafeWhole r host coding timed_out = tt
  buffer-SafeWhole r host coding broken = tt

  refused-SafeWhole :
      (host content_type : Text) (coding : ContentCoding) (b : Body) (x : Refusal)
      → SafeWhole host content_type coding b (refused x)
  unfolding SafeWhole SafeBody
  refused-SafeWhole host content_type coding (whole body) x = tt
  refused-SafeWhole host content_type coding timed_out x = tt
  refused-SafeWhole host content_type coding broken x = tt

  cancelled-SafeWhole :
      (host content_type : Text) (coding : ContentCoding) (b : Body)
      → SafeWhole host content_type coding b cancelled
  unfolding SafeWhole SafeBody
  cancelled-SafeWhole host content_type coding (whole body) = tt
  cancelled-SafeWhole host content_type coding timed_out = tt
  cancelled-SafeWhole host content_type coding broken = tt

  respond_slot-SafeWhole :
      (r : Response) (host : Text) (coding : ContentCoding) (slot : Slot)
      → SafeWhole host r.content_type coding r.body (respond_slot lib c r host coding slot)
  unfolding respond_slot
  respond_slot-SafeWhole r host coding none_free =
      refused-SafeWhole host r.content_type coding r.body capacity
  respond_slot-SafeWhole r host coding given_up =
      cancelled-SafeWhole host r.content_type coding r.body
  respond_slot-SafeWhole r host coding acquired = buffer-SafeWhole r host coding r.body

  gated-SafeWhole :
      (r : Response) (host : Text) (coding : ContentCoding) (slot : Slot) (unfit partial : Bool)
      → SafeWhole host r.content_type coding r.body (
          if unfit
          then refused unredactable_content
          else if partial
          then refused partial_content
          else respond_slot lib c r host coding slot)
  gated-SafeWhole r host coding slot true partial =
      refused-SafeWhole host r.content_type coding r.body unredactable_content
  gated-SafeWhole r host coding slot false true =
      refused-SafeWhole host r.content_type coding r.body partial_content
  gated-SafeWhole r host coding slot false false = respond_slot-SafeWhole r host coding slot

  sent-SafeWhole :
      (host content_type : Text) (coding : ContentCoding) (b : Body) (s : Response)
      → SafeWhole host content_type coding b (sent s)
      → (body : Text) × (final : Text) × (b ≡ whole body)
        × (s.body ≡ whole final)
        × Redacted host content_type coding body final
  unfolding SafeWhole SafeBody
  sent-SafeWhole host content_type coding (whole body) s (final, e, safe) =
      (body, final, refl, e, safe)
  sent-SafeWhole host content_type coding timed_out s h = absurd h
  sent-SafeWhole host content_type coding broken s h = absurd h

  streamed-SafeWhole :
      (host content_type : Text) (coding : ContentCoding) (b : Body) (s : Response)
      → SafeWhole host content_type coding b (streamed s)
      → ⊥
  unfolding SafeWhole SafeBody
  streamed-SafeWhole host content_type coding (whole body) s h = h
  streamed-SafeWhole host content_type coding timed_out s h = h
  streamed-SafeWhole host content_type coding broken s h = h

  respond-SafeWhole :
      (r : Response) (host : Text) (slot : Slot)
      → SafeWhole host r.content_type
          (classify_content_coding lib c r.content_encoding)
          r.body
          (respond lib c r host true slot)
  unfolding respond respond_covered strip_traversal_headers
  respond-SafeWhole r host slot =
      gated-SafeWhole (record (strip_traversal_headers r) { accept_ranges = false }) host
        (classify_content_coding lib c r.content_encoding) slot
        (r.status == 101
          || text_eq (media_type_of lib c r.content_type) (codes "text/event-stream")
          || is_grpc lib c (media_type_of lib c r.content_type)
          || not (redactable (media_type_of lib c r.content_type)))
        (r.status == 206)

  pub respond-streamed :
      (r s : Response) (host : Text) (slot : Slot) → respond lib c r host true slot ≢ streamed s
  respond-streamed r s host slot e =
      let coding = classify_content_coding lib c r.content_encoding in
      streamed-SafeWhole host r.content_type coding r.body s
        (subst (SafeWhole host r.content_type coding r.body) e (respond-SafeWhole r host slot))

  -- What is sent of the response to a request that the client covers, whatever its headers and
  -- coding, has as its body nothing, the coding of nothing, or the redaction of the whole body that
  -- was read, taken out of its coding and put back into it.
  pub respond_covered-Safe :
      (r s : Response) (host : Text) (slot : Slot)
      → respond lib c r host true slot ≡ sent s
      → (body : Text) × (final : Text) × (r.body ≡ whole body)
        × (s.body ≡ whole final)
        × Redacted host r.content_type (classify_content_coding lib c r.content_encoding) body final
  respond_covered-Safe r s host slot e =
      let coding = classify_content_coding lib c r.content_encoding in
      sent-SafeWhole host r.content_type coding r.body s
        (subst (SafeWhole host r.content_type coding r.body) e (respond-SafeWhole r host slot))
